-- ===== src/HealthChecker/Timeout.antt =====
-- The timeout of a probe against the interval of the sweeps.
use go_load_balance.Prelude.{
  ◌≡◌, ◌*◌, ℤ, pos, ◌-ℤ◌, ◌≤ℤ◌, ◌<ℤ◌, IsInt, to_int, to_int_of_fits, int_laws, arith, -ℤ_parts,
}
use go_load_balance.HealthChecker.{new_health_checker, second, millisecond}

to_int-sub :
    (interval : ℤ)
    → IsInt interval
    → pos (5 * second) ≤ℤ interval
    → to_int (interval -ℤ pos (500 * millisecond)) ≡ interval -ℤ pos (500 * millisecond)
to_int-sub interval fits h = to_int_of_fits _ (omega int_laws)

-- For an interval of at least 5 seconds a probe times out before the next sweep is due, after 4.5
-- to 10 seconds.
pub probe_timeout-lt-interval :
    (interval : ℤ)
    → IsInt interval
    → pos (5 * second) ≤ℤ interval
    → ((new_health_checker interval).timeout <ℤ interval)
      × (pos (4500 * millisecond) ≤ℤ (new_health_checker interval).timeout)
      × ((new_health_checker interval).timeout ≤ℤ pos (10 * second))
unfolding new_health_checker
probe_timeout-lt-interval interval fits h =
    ground (arith, to_int-sub interval fits h, -ℤ_parts interval (pos (500 * millisecond)))
