-- ===== src/Tests/Fates.antt =====
-- A request arrives and the health check of its backend fails.
use go_load_balance.Prelude.{
  true, some, [], ◌∷◌, ◌++◌, arith, ◌%◌, ◌^◌, ◌≡◌, refl, false, pos, to_int, ◌+ℤ◌, modify,
}
use go_load_balance.Backend.{Backend, increment_conns, mark_unhealthy}
use go_load_balance.Chain.{affinity_chain}
use go_load_balance.Health.{Event, checked, handle, passed_since_failure, serves, outages}
use go_load_balance.HealthChecker.{failed, check_backend}
use go_load_balance.Pool.{enable_cache_aware, least_conn_locked, scan, visit, tie_break}
use go_load_balance.Pool.Choose.{At}
use go_load_balance.Affinity.{Entry}
use go_load_balance.Routing.{
  judge_backend, stale, select_cache_aware, walk, route, upsert_locked, upsert_all, retain,
}
use go_load_balance.Serve.{complete, serve_http, serve_cache_aware}
use go_load_balance.System.{arrive, start, System, health, Reach, later}
use go_load_balance.System.Expiry.{Onward, here, further, since, outages-stale}
use go_load_balance.System.Fates.{Reach-health}
use go_load_balance.System.History.{step_events, history}
use go_load_balance.Table.{lookup, insert, get_records}
use go_load_balance.Tests.Chain.{toy}
use go_load_balance.Tests.Pool.{first-IsIntn}
use go_load_balance.Tests.Samples.{first, parse_all}
use go_load_balance.Tests.System.{set_up, set_up-IsSetUp, busy, busy-Reach}

abbrev refused_check : Event
refused_check = checked (failed "connection refused")

abbrev failing : System
failing = record busy {
  pool = record busy.pool { backends = modify busy.pool.backends 0 (handle refused_check) };
}

failing-Reach : Reach toy set_up failing
failing-Reach = later busy-Reach (health 0 refused_check)

abbrev down : Backend
down = record {
  url = "http://a";
  healthy = false;
  active_conns = pos 1;
  success_streak = pos 0;
  epoch = 1;
}

failing_first : At failing.pool.backends 0 down
unfolding serve_http serve_cache_aware enable_cache_aware affinity_chain select_cache_aware walk
    route upsert_locked upsert_all retain least_conn_locked scan visit tie_break lookup insert
    get_records increment_conns to_int ◌+ℤ◌ handle check_backend mark_unhealthy
failing_first = refl

Reach-health_example :
    (down.healthy ≡ serves (passed_since_failure (history 0 failing-Reach)))
    × (down.epoch ≡ outages (history 0 failing-Reach) % 2 ^ 64)
Reach-health_example =
    Reach-health parse_all toy set_up failing set_up-IsSetUp failing-Reach 0 down failing_first

abbrev at_start : System
at_start = record { pool = set_up; in_flight = [] }

-- The request, which pins its prefixes to the backend, and the outage.
abbrev on_the_way : Onward toy at_start failing
on_the_way =
    further (further here (arrive first 5 (complete (7 ∷ 8 ∷ [])) first-IsIntn (omega arith)))
      (health 0 refused_check)

one_outage : outages (since 0 on_the_way ++ history 0 {codec = toy} {p = set_up} start) ≡ 1
unfolding outages history step_events since passed_since_failure
one_outage = refl

no_outage : outages (history 0 {codec = toy} {p = set_up} start) ≡ 0
unfolding outages history
no_outage = refl

abbrev first_pin : Entry
first_pin = record { backend = 0; epoch = 0; last_seen = 5 }

outages-stale_example : judge_backend 6 (pos 100) first_pin (some down) ≡ stale
unfolding enable_cache_aware
outages-stale_example =
    outages-stale parse_all toy set_up at_start failing set_up-IsSetUp start on_the_way 0
      (record down { healthy = true; active_conns = pos 0; epoch = 0 }) down refl failing_first
      (omega (arith, no_outage, one_outage)) (omega (arith, one_outage)) 6 (pos 100) first_pin refl
