-- ===== src/Tests/Checks.antt =====
-- Two backends, checked in the other order.
use go_load_balance.Prelude.{
  ℕ, zero, suc, ◌≡◌, refl, true, false, List, [], ◌∷◌, ◌++◌, map, some, pos, get_elem?, arith,
  to_int, ◌+ℤ◌,
}
use go_load_balance.Backend.{Backend, marked_unhealthy, check_error}
use go_load_balance.Ticker.{tick, done, rounds}
use go_load_balance.HealthChecker.{Probe, failed, answered, Sweep, check_backend, check_all, start}
use go_load_balance.HealthChecker.Sweeps.{OncePerBackend, check_each, lines, check_all_any_order}
use go_load_balance.HealthChecker.Rounds.{sweep_in_order, start_stops}
use go_load_balance.Tests.Samples.{backend, down}

abbrev two : List Backend
two = backend 1 ∷ down ∷ []

-- The first backend cannot be reached, and the second answers.
abbrev probes : ℕ → Probe
probes zero = failed "refused"
probes (suc i) = answered 200

abbrev backwards : List ℕ
backwards = 1 ∷ 0 ∷ []

check_all_test : check_all probes backwards two ≡ (
  record (backend 1) { healthy = false; epoch = 4 } ∷ record down { success_streak = pos 1 } ∷ [],
  (0, marked_unhealthy "http://a" (check_error "refused")) ∷ [],
)
unfolding check_all check_backend to_int ◌+ℤ◌
check_all_test = refl

backwards-OncePerBackend : OncePerBackend 2 backwards
backwards-OncePerBackend zero h = refl
backwards-OncePerBackend (suc zero) h = refl
backwards-OncePerBackend (suc (suc i)) h = absurd (omega arith)

check_all_any_order_example :
    ((check_all probes backwards two).0 ≡ check_each probes 0 two)
    × ((i : ℕ) (b : Backend)
        → get_elem? two i ≡ some b
        → lines i (check_all probes backwards two).1 ≡ (check_backend (probes i) b).1)
check_all_any_order_example = check_all_any_order probes backwards two backwards-OncePerBackend

abbrev once_more : Sweep
once_more = record { probes = probes; order = backwards }

start_stops_example :
    start once_more (map tick (once_more ∷ []) ++ done ∷ tick once_more ∷ []) two
    ≡ (rounds sweep_in_order (once_more ∷ once_more ∷ []) two, true)
start_stops_example =
    start_stops once_more (once_more ∷ []) (tick once_more ∷ []) two
      (backwards-OncePerBackend, (backwards-OncePerBackend, tt))
