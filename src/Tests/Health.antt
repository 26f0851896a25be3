-- ===== src/Tests/Health.antt =====
-- Histories of one backend.
use go_load_balance.Prelude.{◌≡◌, refl, some, none, true, false, List, [], ◌∷◌, pos, ◌+ℤ◌, to_int}
use go_load_balance.Backend.{
  Backend, mark_unhealthy, record_check_success, error_handler, modify_response, status,
  proxy_error,
}
use go_load_balance.HealthChecker.{answered, check_backend}
use go_load_balance.Health.{Event, checked, responded, proxy_failed, run}
use go_load_balance.Health.Logging.{transition, proxy-logs_transition}
use go_load_balance.Tests.Samples.{backend}

abbrev new : Backend
new = record {
  url = "http://a";
  healthy = true;
  active_conns = pos 0;
  success_streak = pos 0;
  epoch = 0;
}

-- An outage by a 500, then a pass, a client that leaves, and a pass with 429; latest first.
abbrev recovery : List Event
recovery =
    checked (answered 429)
    ∷ proxy_failed true "canceled"
    ∷ checked (answered 200)
    ∷ responded 500
    ∷ []

recovery_test : (run recovery new).healthy ≡ true
unfolding run check_backend error_handler modify_response mark_unhealthy record_check_success to_int
    ◌+ℤ◌
recovery_test = refl

proxy-logs_transition_example :
    ((modify_response 502 (backend 2)).log
      ≡ transition (backend 2) (modify_response 502 (backend 2)).backend (status 502))
    × ((error_handler false "EOF" (backend 2)).log
        ≡ transition
            (backend 2)
            (error_handler false "EOF" (backend 2)).backend
            (proxy_error "EOF"))
    × ((error_handler false "EOF" (backend 2)).header ≡ some 502)
    × ((error_handler true "EOF" (backend 2)).backend ≡ backend 2)
    × ((error_handler true "EOF" (backend 2)).header ≡ none)
proxy-logs_transition_example = proxy-logs_transition (backend 2) "EOF" 502
