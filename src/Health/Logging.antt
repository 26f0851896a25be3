-- ===== src/Health/Logging.antt =====
-- Health transitions are logged once each.
use go_load_balance.Prelude.{
  ℕ, ◌≡◌, true, false, List, [], ◌∷◌, String, arith, some, none, if◌then◌else◌,
}
use go_load_balance.Backend.{
  Backend, LogLine, Reason, proxy_error, check_error, status, marked_healthy, marked_unhealthy,
  mark_unhealthy, record_check_success, error_handler, modify_response,
}
use go_load_balance.HealthChecker.{Probe, failed, answered, check_backend}

-- What a change of health from `b` to `b'` prints.
abbrev pub transition : (b b' : Backend) → Reason → List LogLine
transition b b' why =
    if b.healthy
    then (if b'.healthy then [] else marked_unhealthy b.url why ∷ [])
    else (if b'.healthy then marked_healthy b.url ∷ [] else [])

abbrev pub reason : Probe → Reason
reason (failed error) = check_error error
reason (answered code) = status code

-- A health check prints one line if it changes the backend's health, the line for that change, and
-- nothing otherwise.
check_backend-logs_transition :
    (p : Probe) (b : Backend)
    → (check_backend p b).1 ≡ transition b (check_backend p b).0 (reason p)
unfolding check_backend mark_unhealthy record_check_success
check_backend-logs_transition (failed error) b = ground arith
check_backend-logs_transition (answered code) b = ground arith

-- A proxied response, and a proxy error that the client did not cause, print one line if they
-- change the backend's health, the line for that change, and nothing otherwise; such an error is
-- answered with 502. An error after the client went away changes nothing of the backend and writes
-- no status.
pub proxy-logs_transition :
    (b : Backend) (error : String) (code : ℕ)
    → ((modify_response code b).log ≡ transition b (modify_response code b).backend (status code))
      × ((error_handler false error b).log
          ≡ transition b (error_handler false error b).backend (proxy_error error))
      × ((error_handler false error b).header ≡ some 502)
      × ((error_handler true error b).backend ≡ b)
      × ((error_handler true error b).header ≡ none)
unfolding error_handler modify_response mark_unhealthy
proxy-logs_transition b error code = ground arith
