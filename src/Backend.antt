-- ===== src/Backend.antt =====
-- lib/backend.go: one backend, its health, its connection count and its epoch. A method takes the
-- backend as it is when the method has its lock, and returns the backend that it leaves.
use go_load_balance.Prelude.{
  ℕ, ◌+◌, ◌%◌, ◌^◌, Bool, true, false, List, [], ◌∷◌, String, Option, none, some, Result, ok, err,
  ◌>>=◌, ℤ, pos, ◌+ℤ◌, ◌-ℤ◌, to_int, ltb_ℤ, leb, if◌then◌else◌,
}
pub mod Counts

abbrev pub healthy_threshold : ℤ
healthy_threshold = pos 2

-- `url` is the text of the parsed URL. The proxy is its two hooks, `error_handler` and
-- `modify_response` below.
pub record Backend : Type 0 where
  pub url : String
  pub healthy : Bool
  pub active_conns : ℤ  -- int
  pub success_streak : ℤ  -- int
  pub epoch : ℕ  -- uint64

-- What the handlers print, the text of an error kept as it is.
pub data Reason : Type 0 where
  proxy_error : String → Reason
  check_error : String → Reason
  status : ℕ → Reason

pub data LogLine : Type 0 where
  client_disconnected : (url error : String) → LogLine
  marked_unhealthy : (url : String) → Reason → LogLine
  marked_healthy : (url : String) → LogLine

-- `url.Parse`, followed by `String` on a parsed URL, is a parameter.
unfoldable pub new_backend : (String → Result String String) → String → Result String Backend
new_backend parse_url url_str = do
  u ← parse_url url_str
  ok (record { url = u; healthy = true; active_conns = pos 0; success_streak = pos 0; epoch = 0 })

abbrev pub is_healthy : Backend → Bool
is_healthy b = b.healthy

unfoldable pub mark_unhealthy : Backend → Backend × Bool
mark_unhealthy b = (
  record b {
    healthy = false;
    success_streak = pos 0;
    epoch = if b.healthy then (b.epoch + 1) % 2 ^ 64 else b.epoch;
  },
  b.healthy,
)

unfoldable pub record_check_success : Backend → Backend × Bool
unfolding to_int
record_check_success b =
    if b.healthy
    then (b, false)
    else let streak = to_int (b.success_streak +ℤ pos 1) in
      if ltb_ℤ streak healthy_threshold
      then (record b { success_streak = streak }, false)
      else (record b { success_streak = streak; healthy = true }, true)

abbrev pub get_active_conns : Backend → ℤ
get_active_conns b = b.active_conns

unfoldable pub increment_conns : Backend → Backend
increment_conns b = record b { active_conns = to_int (b.active_conns +ℤ pos 1) }

unfoldable pub decrement_conns : Backend → Backend
decrement_conns b = record b { active_conns = to_int (b.active_conns -ℤ pos 1) }

-- What a hook of the proxy leaves: the backend, what it printed, and the status that it wrote.
pub record Handled : Type 0 where
  pub backend : Backend
  pub log : List LogLine
  pub header : Option ℕ

-- The log of a call that reports a transition.
abbrev pub log_if : Bool → LogLine → List LogLine
log_if changed line = if changed then line ∷ [] else []

-- `cancelled` says whether `r.Context().Err()` is set.
unfoldable pub error_handler : (cancelled : Bool) (error : String) → Backend → Handled
unfolding mark_unhealthy
error_handler cancelled error b =
    if cancelled
    then record { backend = b; log = client_disconnected b.url error ∷ []; header = none }
    else let (b', changed) = mark_unhealthy b in
      record {
        backend = b';
        log = log_if changed (marked_unhealthy b.url (proxy_error error));
        header = some 502;
      }

-- It never replaces the response.
unfoldable pub modify_response : (code : ℕ) → Backend → Handled
unfolding mark_unhealthy
modify_response code b =
    if leb 500 code
    then (let (b', changed) = mark_unhealthy b in
        record {
          backend = b';
          log = log_if changed (marked_unhealthy b.url (status code));
          header = none;
        })
    else record { backend = b; log = []; header = none }
