-- ===== src/Cli/Startup.antt =====
-- cmd/lb/main.go: what the action does from its checks to the moment it listens.
use go_load_balance.Prelude.{
  bind_inv, ◌≡◌, refl, Bool, true, false, List, [], ◌∷◌, ◌++◌, map, String, Option, none, some,
  Result, ok, err, ◌>>=◌, ℤ, pos, ltb_ℤ, ◌≤ℤ◌, ◌<ℤ◌, IsInt, subst, arith, if◌then◌else◌,
}
use go_load_balance.Pool.{Pool}
use go_load_balance.HealthChecker.{HealthChecker, new_health_checker}
use go_load_balance.Logger.{StatusLogger, new_status_logger}
use go_load_balance.Cli.Text.{eq_text}
use go_load_balance.HealthChecker.Timeout.{probe_timeout-lt-interval}
use go_load_balance.System.{IsSetUp, LimitFits}
use go_load_balance.Cli.Setup.{check_flags-accepts_iff, start_pool-IsSetUp, start_pool-LimitFits}
use go_load_balance.Cli.{
  Flags, FlagError, no_log_file, all_backends, is_cache_aware, check_flags, start_pool,
}

-- The lines that are printed at the start.
pub data StartLine : Type 0 where
  starting : (version : String) → StartLine
  port_is timeout_is interval_is max_conns_is affinity_ttl_is : ℤ → StartLine
  routing_is request_log_is : String → StartLine
  verbose_is : Bool → StartLine
  backends_are : StartLine
  backend_is : String → StartLine

abbrev pub line_if : Bool → StartLine → List StartLine
line_if test line = if test then line ∷ [] else []

abbrev pub is_given : String → Bool
is_given path = if eq_text path "" then false else true

unfoldable pub start_lines : (version : String) → Flags → List StartLine
start_lines version c =
    (starting version
      ∷ port_is c.port
      ∷ timeout_is c.timeout
      ∷ interval_is c.health_check_interval
      ∷ routing_is c.routing
      ∷ [])
    ++ line_if (ltb_ℤ (pos 0) c.max_conns) (max_conns_is c.max_conns)
    ++ line_if (is_cache_aware c) (affinity_ttl_is c.affinity_ttl)
    ++ line_if (is_given c.log_to) (request_log_is c.log_to)
    ++ (verbose_is c.verbose ∷ backends_are ∷ map backend_is (all_backends c))

-- What runs once the server listens. The server reads and writes within `timeout`.
pub record Running : Type 0 where
  pub pool : Pool
  pub req_log : Option String
  pub health_checker : HealthChecker
  pub status_logger : StatusLogger
  pub port : ℤ
  pub timeout : ℤ

abbrev pub opened : (path : String) → Option String → Result FlagError (Option String)
opened path none = ok (some path)
opened path (some error) = err (no_log_file error)

-- `NewRequestLog` and `SetRequestLog`, if there is a path; `open_file` is the error of `os.OpenFile`.
unfoldable pub open_log :
    (open_file : String → Option String) → String → Result FlagError (Option String)
open_log open_file path = if is_given path then opened path (open_file path) else ok none

-- The action up to `ListenAndServe`, or the reason why it fails before that.
unfoldable pub start_server :
    (parse_url : String → Result String String) (open_file : String → Option String)
    → Flags
    → Result FlagError Running
start_server parse_url open_file c = do
  p ← start_pool parse_url c
  req_log ← open_log open_file c.log_to
  ok (record {
    pool = p;
    req_log = req_log;
    health_checker = new_health_checker c.health_check_interval;
    status_logger = new_status_logger c.health_check_interval c.verbose;
    port = c.port;
    timeout = c.timeout;
  })

ok_value : {A : Type 0} {a b : A} → ◌≡◌ {A = Result FlagError A} (ok a) (ok b) → a ≡ b
ok_value e = cc

start_pool_inv :
    (parse_url : String → Result String String) (c : Flags) (p : Pool)
    → start_pool parse_url c ≡ ok p
    → check_flags c ≡ none
unfolding start_pool
start_pool_inv parse_url c p e = ground arith

open_log-given :
    (open_file : String → Option String) (path : String) (o : Option String)
    → open_log open_file path ≡ ok o
    → o ≡ (if is_given path then some path else none)
unfolding open_log
open_log-given open_file path o e = ground arith

-- What the server that starts runs with, for a cap below a fifth of 2 ^ 63 and an interval that fits
-- an int: a pool in one of its three modes, whose retention limit did not wrap around; probes that time out before the next sweep; a status line
-- at the interval of the sweeps; a request log exactly if `--log-to` is given; and a port in range
-- with a timeout that is not negative.
pub start_server_runs :
    (parse_url : String → Result String String) (open_file : String → Option String) (c : Flags)
    (r : Running)
    → start_server parse_url open_file c ≡ ok r
    → c.max_conns ≤ℤ pos 1844674407370955161
    → IsInt c.health_check_interval
    → IsSetUp parse_url r.pool
      × LimitFits r.pool.affinity
      × (r.health_checker.timeout <ℤ r.health_checker.interval)
      × (r.status_logger.interval ≡ r.health_checker.interval)
      × (r.req_log ≡ (if is_given c.log_to then some c.log_to else none))
      × ((pos 1 ≤ℤ r.port) × (r.port ≤ℤ pos 65535) × (pos 0 ≤ℤ r.timeout))
unfolding start_server new_health_checker
start_server_runs parse_url open_file c r e small fits =
    let (p, made, rest) = bind_inv (start_pool parse_url c) _ r e in
    let (o, logged, is) = bind_inv (open_log open_file c.log_to) _ r rest in
    let accepted = (check_flags-accepts_iff c).0.0 (start_pool_inv parse_url c p made) in
    subst
      (λ (x : Running).
        IsSetUp parse_url x.pool
        × LimitFits x.pool.affinity
        × (x.health_checker.timeout <ℤ x.health_checker.interval)
        × (x.status_logger.interval ≡ x.health_checker.interval)
        × (x.req_log ≡ (if is_given c.log_to then some c.log_to else none))
        × ((pos 1 ≤ℤ x.port) × (x.port ≤ℤ pos 65535) × (pos 0 ≤ℤ x.timeout)))
      (ok_value is)
      (
        start_pool-IsSetUp parse_url c p made,
        start_pool-LimitFits parse_url c p made small,
        (probe_timeout-lt-interval c.health_check_interval fits accepted.interval).0,
        refl,
        open_log-given open_file c.log_to o logged,
        (accepted.port.0, accepted.port.1, accepted.timeout),
      )
