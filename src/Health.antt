-- ===== src/Health.antt =====
-- The health of a backend over a history of health checks and proxied requests
-- (lib/backend.go, lib/healthcheck.go).
use go_load_balance.Prelude.{
  ℕ, suc, ◌+◌, ◌%◌, ◌^◌, Bool, true, false, not, List, [], ◌∷◌, String, Option, none, some, ℤ, pos,
  leb, ltb, if◌then◌else◌, min, ◌&&◌,
}
use go_load_balance.Backend.{Backend, error_handler, modify_response}
use go_load_balance.HealthChecker.{Probe, check_backend, failed, answered, is_passing}
pub mod History
pub mod Logging
pub mod Neutral

-- What can change a backend's health.
pub data Event : Type 0 where
  checked : Probe → Event
  proxy_failed : (cancelled : Bool) (error : String) → Event
  responded : (code : ℕ) → Event

unfoldable pub handle : Event → Backend → Backend
unfolding check_backend error_handler modify_response
handle (checked p) b = (check_backend p b).0
handle (proxy_failed cancelled error) b = (error_handler cancelled error b).backend
handle (responded code) b = (modify_response code b).backend

-- A history lists the latest event first.
unfoldable pub run : List Event → Backend → Backend
unfolding handle
run [] b = b
run (e ∷ past) b = handle e (run past b)

-- What an event says of the backend, whatever its state.
pub data Sign : Type 0 where
  good bad neutral : Sign

abbrev pub sign : Event → Sign
sign (checked (failed error)) = bad
sign (checked (answered code)) = if is_passing code then good else bad
sign (proxy_failed cancelled error) = if cancelled then neutral else bad
sign (responded code) = if leb 500 code then bad else neutral

-- The passed checks since the last failure; `none` if nothing ever failed.
unfoldable pub passed_since_failure : List Event → Option ℕ
passed_since_failure [] = none
passed_since_failure (e ∷ past) = elim (sign e) [
  | good ↦ elim (passed_since_failure past) [ none ↦ none | some n ↦ some (suc n) ]
  | bad ↦ some 0
  | neutral ↦ passed_since_failure past
]

-- A backend serves if it never failed, or passed two checks since.
abbrev pub serves : Option ℕ → Bool
serves none = true
serves (some n) = leb 2 n

-- The failures that hit a serving backend.
unfoldable pub outages : List Event → ℕ
outages [] = 0
outages (e ∷ past) = elim (sign e) [
  | bad ↦ if serves (passed_since_failure past) then suc (outages past) else outages past
  | _ ↦ outages past
]
