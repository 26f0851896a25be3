-- ===== src/HealthChecker.antt =====
-- lib/healthcheck.go: the probe of one backend, and the sweep over all of them. Durations are
-- integers of nanoseconds; what the HTTP client returns is an argument.
use go_load_balance.Prelude.{
  ℕ, zero, suc, ◌*◌, ◌^◌, Bool, true, false, List, [], ◌∷◌, ◌++◌, map, String, ◌&&◌, ◌||◌, ◌==◌, ℤ,
  pos, ◌-ℤ◌, to_int, ltb_ℤ, leb, ltb, if◌then◌else◌, get_elem?, modify, Option, none, some,
}
use mathlib.Core.Option
use go_load_balance.Backend.{
  Backend, LogLine, marked_unhealthy, marked_healthy, check_error, status, log_if, mark_unhealthy,
  record_check_success,
}
use go_load_balance.Ticker.{Wake, loop}
pub mod Timeout
pub mod Sweeps
pub mod Rounds

abbrev pub millisecond : ℕ
millisecond = 1000000

abbrev pub second : ℕ
second = 1000000000

-- Go's `min` and `max` of two durations.
abbrev pub min_ℤ : ℤ → ℤ → ℤ
min_ℤ a b = if ltb_ℤ b a then b else a

abbrev pub max_ℤ : ℤ → ℤ → ℤ
max_ℤ a b = if ltb_ℤ a b then b else a

-- The pool is an argument of the methods, and the client is its timeout.
pub record HealthChecker : Type 0 where
  pub interval : ℤ
  pub timeout : ℤ

unfoldable pub new_health_checker : (interval : ℤ) → HealthChecker
new_health_checker interval = record {
  interval = interval;
  timeout =
      min_ℤ (pos (10 * second))
        (max_ℤ (pos (4500 * millisecond)) (to_int (interval -ℤ pos (500 * millisecond))));
}

-- What `client.Get` returns for the health URL.
pub data Probe : Type 0 where
  failed : (error : String) → Probe
  answered : (code : ℕ) → Probe

-- 2xx and 429
abbrev pub is_passing : ℕ → Bool
is_passing code = (leb 200 code && ltb code 300) || code == 429

unfoldable pub check_backend : Probe → Backend → Backend × List LogLine
unfolding mark_unhealthy record_check_success
check_backend (failed error) b =
    let (b', changed) = mark_unhealthy b in
    (b', log_if changed (marked_unhealthy b.url (check_error error)))
check_backend (answered code) b =
    if is_passing code
    then (let (b', changed) = record_check_success b in (b', log_if changed (marked_healthy b.url)))
    else (let (b', changed) = mark_unhealthy b in
        (b', log_if changed (marked_unhealthy b.url (status code))))

-- The goroutine of `checkAll` for backend `i`, with the log as (index, line) pairs.
abbrev pub checked : ℕ → Option (Backend × List LogLine) → List (ℕ × LogLine)
checked i none = []
checked i (some (b, lines)) = map (λ l. (i, l)) lines

abbrev pub probe_at : (probes : ℕ → Probe) → ℕ → List Backend → Option (Backend × List LogLine)
probe_at probes i bs = Option.map (check_backend (probes i)) (get_elem? bs i)

-- `checkAll` starts a goroutine for each backend and waits for all of them. Each one changes its own
-- backend only; `order` is the order in which they do.
unfoldable pub check_all :
    (probes : ℕ → Probe) (order : List ℕ) → List Backend → List Backend × List (ℕ × LogLine)
check_all probes [] bs = (bs, [])
check_all probes (i ∷ order) bs =
    let (bs', log) = check_all probes order (modify bs i (λ b. (check_backend (probes i) b).0)) in
    (bs', checked i (probe_at probes i bs) ++ log)

-- A sweep, by what its probes return and the order of its goroutines.
pub record Sweep : Type 0 where
  pub probes : ℕ → Probe
  pub order : List ℕ

abbrev pub sweep : Sweep → List Backend → List Backend
sweep w bs = (check_all w.probes w.order bs).0

-- `Start`: a sweep at once, and one at each tick until the context is done.
unfoldable pub start : (first : Sweep) → List (Wake Sweep) → List Backend → List Backend × Bool
unfolding check_all
start first wakes bs = loop sweep wakes (sweep first bs)
