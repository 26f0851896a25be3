-- ===== src/Health/History.antt =====
-- A backend's health, streak and epoch are functions of its history.
use go_load_balance.Prelude.{
  ℕ, suc, ◌%◌, ◌^◌, ◌≡◌, refl, List, [], ◌∷◌, Option, none, some, pos, min, arith, String, ◌+ℤ◌,
  to_int, if◌then◌else◌, Result, ok,
}
use go_load_balance.Backend.{
  Backend, mark_unhealthy, new_backend, record_check_success, error_handler, modify_response,
}
use go_load_balance.HealthChecker.{failed, answered, check_backend}
use go_load_balance.Health.{
  Event, checked, proxy_failed, responded, handle, run, Sign, good, bad, neutral, sign,
  passed_since_failure, serves, outages,
}

abbrev streak : Option ℕ → ℕ
streak none = 0
streak (some n) = min n 2

pub record Agrees (since : Option ℕ) (outs : ℕ) (b : Backend) : Type 0 where
  pub health : b.healthy ≡ serves since
  streaks : b.success_streak ≡ pos (streak since)
  pub epochs : b.epoch ≡ outs % 2 ^ 64

-- An event does to a backend what its sign says.
abbrev by_sign : Sign → Backend → Backend
by_sign good b = (record_check_success b).0
by_sign bad b = (mark_unhealthy b).0
by_sign neutral b = b

handle-by_sign : (e : Event) (b : Backend) → handle e b ≡ by_sign (sign e) b
unfolding handle check_backend error_handler modify_response
handle-by_sign (checked (failed error)) b = refl
handle-by_sign (checked (answered code)) b = ground arith
handle-by_sign (proxy_failed cancelled error) b = ground arith
handle-by_sign (responded code) b = ground arith

mark_unhealthy-Agrees :
    (since : Option ℕ) (outs : ℕ) (b : Backend)
    → Agrees since outs b
    → Agrees (some 0) (if serves since then suc outs else outs) (mark_unhealthy b).0
unfolding mark_unhealthy
mark_unhealthy-Agrees since outs b a = ground arith

passed_never_failed-Agrees :
    (outs : ℕ) (b : Backend) → Agrees none outs b → Agrees none outs (record_check_success b).0
unfolding record_check_success
passed_never_failed-Agrees outs b a = ground arith

passed_recovering-Agrees :
    (n outs : ℕ) (b : Backend)
    → Agrees (some n) outs b
    → Agrees (some (suc n)) outs (record_check_success b).0
unfolding record_check_success to_int ◌+ℤ◌
passed_recovering-Agrees n outs b a = ground arith

step-Agrees :
    (s : Sign) (since : Option ℕ) (outs : ℕ) (b : Backend)
    → Agrees since outs b
    → Agrees
        (elim s [
          | good ↦ elim since [ none ↦ none | some n ↦ some (suc n) ]
          | bad ↦ some 0
          | neutral ↦ since
        ])
        (elim s [ bad ↦ if serves since then suc outs else outs | _ ↦ outs ])
        (by_sign s b)
step-Agrees good none outs b a = passed_never_failed-Agrees outs b a
step-Agrees good (some n) outs b a = passed_recovering-Agrees n outs b a
step-Agrees bad since outs b a = mark_unhealthy-Agrees since outs b a
step-Agrees neutral since outs b a = a

pub run-Agrees :
    (evs : List Event) (b : Backend)
    → Agrees none 0 b
    → Agrees (passed_since_failure evs) (outages evs) (run evs b)
unfolding run passed_since_failure outages
run-Agrees [] b a = a
run-Agrees (e ∷ past) b a =
    rw (handle-by_sign e (run past b)) (step-Agrees (sign e) _ _ _ (run-Agrees past b a))

pub new_backend-Agrees :
    (parse_url : String → Result String String) (u : String) (b : Backend)
    → new_backend parse_url u ≡ ok b
    → Agrees none 0 b
unfolding new_backend
new_backend-Agrees parse_url u b h = ground arith

-- Fail fast, recover slowly: after any history a backend that started as `NewBackend` makes it is
-- healthy exactly when no event of the history was a failure, or two health checks passed since
-- the last failure.
healthy-run :
    (parse_url : String → Result String String) (u : String) (b : Backend) (evs : List Event)
    → new_backend parse_url u ≡ ok b
    → (run evs b).healthy ≡ serves (passed_since_failure evs)
healthy-run parse_url u b evs h = (run-Agrees evs b (new_backend-Agrees parse_url u b h)).health

-- After any history from `NewBackend` the epoch is, modulo 2 ^ 64, the number of failures that hit
-- the backend while it was serving.
epoch-run :
    (parse_url : String → Result String String) (u : String) (b : Backend) (evs : List Event)
    → new_backend parse_url u ≡ ok b
    → (run evs b).epoch ≡ outages evs % 2 ^ 64
epoch-run parse_url u b evs h = (run-Agrees evs b (new_backend-Agrees parse_url u b h)).epochs
