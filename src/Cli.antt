-- ===== src/Cli.antt =====
-- cmd/lb/main.go: the checks of the flags, how the pool is built from them, and `/health`.
use go_load_balance.Prelude.{
  ℕ, Bool, true, false, not, ◌&&◌, ◌||◌, List, ◌++◌, map, String, Option, none, some, Result, ok,
  err, ◌>>=◌, ℤ, pos, ltb_ℤ, leb_ℤ, eqb_ℤ, if◌then◌else◌,
}
use go_load_balance.Pool.{Pool, Status, new_pool, set_max_conns, enable_cache_aware, get_status}
use Text.{eq_text, add_scheme}
pub mod Text
pub mod Declared
pub mod Startup
pub mod Setup
pub mod Endpoint

-- The flags and the positional arguments; durations are in nanoseconds.
pub record Flags : Type 0 where
  pub backends : List String
  pub args : List String
  pub port : ℤ
  pub timeout : ℤ
  pub health_check_interval : ℤ
  pub routing : String
  pub max_conns : ℤ
  pub affinity_ttl : ℤ
  pub log_to : String
  pub verbose : Bool

pub data FlagError : Type 0 where
  invalid_port negative_timeout short_interval unknown_routing negative_max_conns : FlagError
  unlimited_cache_aware no_affinity_ttl : FlagError
  bad_backends no_log_file : String → FlagError

-- The list of backends, completed.
abbrev pub all_backends : Flags → List String
all_backends c = map add_scheme (c.backends ++ c.args)

abbrev pub is_cache_aware : Flags → Bool
is_cache_aware c = eq_text c.routing "cache-aware"

-- The first check that fails.
unfoldable pub check_flags : Flags → Option FlagError
check_flags c =
    if ltb_ℤ c.port (pos 1) || ltb_ℤ (pos 65535) c.port
    then some invalid_port
    else if ltb_ℤ c.timeout (pos 0)
    then some negative_timeout
    else if ltb_ℤ c.health_check_interval (pos 5000000000)
    then some short_interval
    else if not (eq_text c.routing "least-conn") && not (is_cache_aware c)
    then some unknown_routing
    else if ltb_ℤ c.max_conns (pos 0)
    then some negative_max_conns
    else if is_cache_aware c
    then (if eqb_ℤ c.max_conns (pos 0)
        then some unlimited_cache_aware
        else if leb_ℤ c.affinity_ttl (pos 0)
        then some no_affinity_ttl
        else none)
    else none

unfoldable pub configure : Flags → Pool → Pool
configure c p =
    if is_cache_aware c
    then enable_cache_aware c.affinity_ttl c.max_conns p
    else if ltb_ℤ (pos 0) c.max_conns
    then set_max_conns c.max_conns p
    else p

abbrev pub or_fatal : Result String Pool → Result FlagError Pool
or_fatal (err message) = err (bad_backends message)
or_fatal (ok p) = ok p

abbrev pub unless_failed : Option FlagError → Result FlagError Pool → Result FlagError Pool
unless_failed none r = r
unless_failed (some e) r = err e

-- The pool that the server is started with, or the reason why it is not started.
unfoldable pub start_pool : (String → Result String String) → Flags → Result FlagError Pool
start_pool parse_url c =
    unless_failed (check_flags c)
      (do p ← or_fatal (new_pool parse_url (all_backends c)); ok (configure c p))

-- A response writer: the header map, and the status and content type that were sent with the first
-- `WriteHeader` or `Write`. The header map has no effect after that.
pub record Writer : Type 0 where
  pub content_type : Option String
  pub sent : Option (ℕ × Option String)

abbrev pub send : ℕ → Option String → Option (ℕ × Option String) → Option (ℕ × Option String)
send code content_type none = some (code, content_type)
send code content_type (some s) = some s

abbrev pub write_header : ℕ → Writer → Writer
write_header code w = record w { sent = send code w.content_type w.sent }

abbrev pub set_content_type : String → Writer → Writer
set_content_type t w = record w { content_type = some t }

-- The JSON object of `/health`.
pub record Report : Type 0 where
  pub status : String
  pub healthy_backends : ℤ
  pub total_backends : ℕ
  pub active_conns : ℤ

-- Encoding the report sends 200 where nothing was sent before.
unfoldable pub health_handler : Pool → Writer → Writer × Report
health_handler p w =
    let s = get_status p in
    let degraded = eqb_ℤ s.healthy_count (pos 0) in
    let w' = if degraded then write_header 503 w else w in
    (
      write_header 200 (set_content_type "application/json" w'),
      record {
        status = if degraded then "degraded" else "ok";
        healthy_backends = s.healthy_count;
        total_backends = s.total_count;
        active_conns = s.total_active;
      },
    )
