-- ===== src/Tests/System.antt =====
-- A cache-aware balancer of two backends, set up and with one request in flight.
use go_load_balance.Prelude.{
  count, true, ◌<ℤ◌, length, ◌≡◌, ◌≢◌, refl, sym, ap, subst, [], ◌∷◌, String, pos, ◌≤ℤ◌, to_int,
  arith, ◌+ℤ◌, none,
}
use go_load_balance.Backend.{Backend, increment_conns, new_backend}
use go_load_balance.Table.{lookup, insert, get_records}
use go_load_balance.Pool.{
  Pool, least_conn_locked, scan, visit, tie_break, new_backends, new_pool, enable_cache_aware,
}
use go_load_balance.Pool.Choose.{At}
use go_load_balance.Chain.{affinity_chain}
use go_load_balance.Routing.{select_cache_aware, walk, route, upsert_locked, upsert_all, retain}
use go_load_balance.Serve.{serve_cache_aware, no_body, complete, serve_http, aborted}
use go_load_balance.System.Accounting.{Accounted}
use go_load_balance.System.Safety.{Reach-Accounted, Reach-in_flight-le_cap, Reach-serve_http-total}
use go_load_balance.System.{
  System, arrival, arrive, IsSetUp, LimitFits, cache_aware, Reach, start, later,
}
use go_load_balance.Tests.Samples.{parse_all, first}
use go_load_balance.Tests.Pool.{first-IsIntn}
use go_load_balance.Tests.Chain.{toy}

abbrev idle : String → Backend
idle u = record { url = u; healthy = true; active_conns = pos 0; success_streak = pos 0; epoch = 0 }

abbrev plain : Pool
plain = record {
  backends = idle "http://a" ∷ idle "http://b" ∷ [];
  max_conns = pos 0;
  affinity = none;
}

abbrev pub set_up : Pool
set_up = enable_cache_aware (pos 100) (pos 2) plain

pub set_up-IsSetUp : IsSetUp parse_all set_up
unfolding new_pool new_backends new_backend to_int
set_up-IsSetUp =
    cache_aware ("http://a" ∷ "http://b" ∷ []) (pos 100) (pos 2) plain refl (omega arith) refl

pub set_up-LimitFits : LimitFits set_up.affinity
unfolding enable_cache_aware to_int
set_up-LimitFits = omega arith

abbrev pub busy : System
busy = arrival (serve_http toy first 5 (complete (7 ∷ 8 ∷ [])) set_up) []

pub busy-Reach : Reach toy set_up busy
busy-Reach = later start (arrive first 5 (complete (7 ∷ 8 ∷ [])) first-IsIntn (omega arith))

-- The request is served by the first backend, which then has one connection.
pub busy_in_flight : busy.in_flight ≡ 0 ∷ []
unfolding serve_http serve_cache_aware enable_cache_aware affinity_chain select_cache_aware walk
    route upsert_locked upsert_all retain least_conn_locked scan visit tie_break lookup insert
    get_records increment_conns to_int ◌+ℤ◌
busy_in_flight = refl

busy_max_conns : busy.pool.max_conns ≡ pos 2
unfolding serve_http serve_cache_aware enable_cache_aware affinity_chain select_cache_aware walk
    route upsert_locked upsert_all retain least_conn_locked scan visit tie_break lookup insert
    get_records increment_conns to_int ◌+ℤ◌
busy_max_conns = refl

busy_capped : pos 0 <ℤ busy.pool.max_conns
busy_capped = subst (λ n. pos 0 <ℤ n) (sym busy_max_conns) (omega arith)

Reach-Accounted_example : Accounted busy.pool.backends busy.in_flight
Reach-Accounted_example =
    Reach-Accounted parse_all toy set_up busy set_up-IsSetUp set_up-LimitFits busy-Reach

busy_first : At busy.pool.backends 0 (record (idle "http://a") { active_conns = pos 1 })
unfolding serve_http serve_cache_aware enable_cache_aware affinity_chain select_cache_aware walk
    route upsert_locked upsert_all retain least_conn_locked scan visit tie_break lookup insert
    get_records increment_conns to_int ◌+ℤ◌
busy_first = refl

Reach-in_flight-le_cap_example : pos (count 0 busy.in_flight) ≤ℤ busy.pool.max_conns
Reach-in_flight-le_cap_example =
    Reach-in_flight-le_cap parse_all toy set_up busy set_up-IsSetUp set_up-LimitFits busy-Reach
      busy_capped 0 (record (idle "http://a") { active_conns = pos 1 }) busy_first

Reach-serve_http-total_example : (serve_http toy first 9 no_body busy.pool).1 ≢ aborted
Reach-serve_http-total_example =
    Reach-serve_http-total parse_all toy set_up busy set_up-IsSetUp set_up-LimitFits busy-Reach
      first 9 no_body first-IsIntn (omega (arith, ap length busy_in_flight))
