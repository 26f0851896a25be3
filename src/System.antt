-- ===== src/System.antt =====
-- The balancer at work: requests that arrive, are in flight and end, changes of health, and status
-- lines, in any order. Requests that end and changes of health fall within a selection as well (the callers of lib/balancer.go, lib/cacheaware.go and lib/backend.go).
use go_load_balance.Prelude.{
  Option, none, some, ℕ, suc, ◌<◌, ◌^◌, ◌≡◌, List, [], ◌∷◌, ◌++◌, String, ℤ, pos, ◌<ℤ◌, ◌≤ℤ◌, IsInt,
  Result, ok, length, modify, ◌==◌, if◌then◌else◌,
}
use go_load_balance.Backend.{Backend}
use go_load_balance.Affinity.{Affinity}
use go_load_balance.Stats.{affinity_stats_line}
use go_load_balance.Health.{Event, handle}
use go_load_balance.Live.{Moment, LiveSelect}
use go_load_balance.Live.CacheAware.{LiveSelectCacheAware}
use go_load_balance.Pool.{Pool, Choice, new_pool, set_max_conns, enable_cache_aware, release}
use go_load_balance.Pool.Choose.{IsIntn}
use go_load_balance.Chain.{Codec, affinity_chain}
use go_load_balance.Routing.{retention_limit}
use go_load_balance.Serve.{Body, Reply, proxied, answered, aborted, serve_http}
pub mod Accounting
pub mod Concurrent
pub mod Expiry
pub mod Fates
pub mod History
pub mod Interleaved
pub mod Invariant
pub mod Keeps
pub mod Rerouted
pub mod Safety
pub mod SetUp
pub mod Steps
pub mod Tracks

-- `in_flight` lists the backend of each request that holds a slot.
pub record System : Type 0 where
  pub pool : Pool
  pub in_flight : List ℕ

abbrev pub join : Reply → List ℕ → List ℕ
join (proxied i) in_flight = i ∷ in_flight
join (answered a) in_flight = in_flight
join aborted in_flight = in_flight

abbrev pub arrival : Pool × Reply → List ℕ → System
arrival (p, r) in_flight = record { pool = p; in_flight = join r in_flight }

-- The deferred `DecrementConns` runs once for each request that was proxied.
pub data Step (codec : Codec) (s : System) : System → Type 0 where
  arrive :
      (intn : ℕ → ℕ) (now : ℕ) (body : Body)
      → IsIntn intn
      → suc (length s.in_flight) < 2 ^ 63
      → Step codec s (arrival (serve_http codec intn now body s.pool) s.in_flight)
  -- The same, with other goroutines between the reads of the selection.
  arrive_live :
      (intn : ℕ → ℕ) (n : Moment) (c : Choice)
      → s.pool.affinity ≡ none
      → IsIntn intn
      → suc (length s.in_flight) < 2 ^ 63
      → LiveSelect intn s.pool.max_conns
          (record { backends = s.pool.backends; in_flight = s.in_flight })
          n
          c
      → Step codec s
          (record { pool = record s.pool { backends = n.backends }; in_flight = n.in_flight })
  arrive_live_cache_aware :
      (intn : ℕ → ℕ) (now : ℕ) (body : List ℕ) (a a' : Affinity) (n : Moment) (c : Choice)
      → s.pool.affinity ≡ some a
      → IsIntn intn
      → suc (length s.in_flight) < 2 ^ 63
      → LiveSelectCacheAware intn s.pool.max_conns
          (affinity_chain codec body)
          now
          a
          (record { backends = s.pool.backends; in_flight = s.in_flight })
          n
          (some (a', c))
      → Step codec s (record {
        pool = record s.pool { backends = n.backends; affinity = some a' };
        in_flight = n.in_flight;
      })
  end :
      (i : ℕ) (before after : List ℕ)
      → s.in_flight ≡ before ++ i ∷ after
      → Step codec s (record { pool = release i s.pool; in_flight = before ++ after })
  health :
      (i : ℕ) (e : Event)
      → Step codec s
          (record s { pool = record s.pool { backends = modify s.pool.backends i (handle e) } })
  status :
      (a : Affinity)
      → s.pool.affinity ≡ some a
      → Step codec s
          (record s { pool = record s.pool { affinity = some (affinity_stats_line a).0 } })

-- The pool as `cmd/lb` sets it up: unlimited, with a cap, or cache-aware with a cap, which its
-- checks of the flags keep above 0.
pub data IsSetUp (parse_url : String → Result String String) : Pool → Type 0 where
  unlimited : (urls : List String) {p : Pool} → new_pool parse_url urls ≡ ok p → IsSetUp parse_url p
  limited :
      (urls : List String) (n : ℤ) (p : Pool) {q : Pool}
      → new_pool parse_url urls ≡ ok p
      → q ≡ set_max_conns n p
      → IsSetUp parse_url q
  cache_aware :
      (urls : List String) (ttl n : ℤ) (p : Pool) {q : Pool}
      → new_pool parse_url urls ≡ ok p
      → pos 0 <ℤ n
      → q ≡ enable_cache_aware ttl n p
      → IsSetUp parse_url q

-- The retention limit, five times the cap, did not wrap around to below 0. It does not for a cap up
-- to a fifth of 2 ^ 63, which `cmd/lb` does not check; where it did, `upsert_locked` panics.
abbrev pub LimitFits : Option Affinity → Type 0
LimitFits none = Unit
LimitFits (some a) = pos 0 ≤ℤ retention_limit a.max_conns

pub data Reach (codec : Codec) (p : Pool) : System → Type 0 where
  start : Reach codec p (record { pool = p; in_flight = [] })
  later : {s t : System} → Reach codec p s → Step codec s t → Reach codec p t
