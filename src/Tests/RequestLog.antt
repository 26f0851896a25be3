-- ===== src/Tests/RequestLog.antt =====
-- The log of a small request and of its response.
use go_load_balance.Prelude.{
  ◌≡◌, ◌≢◌, refl, true, false, Bool, List, [], ◌∷◌, String, some, Result, ok, arith,
}
use go_load_balance.Chain.{Bytes}
use go_load_balance.RequestLog.{
  Event, read, chose, write_header, write_body, begin, observe, finish, ReqLogEntry, text,
  RequestLog, complete, broken, write_entry, write_failed,
}
use go_load_balance.RequestLog.Entries.{observe_all}
use go_load_balance.RequestLog.Status.{client_status, finish-informational}
use go_load_balance.RequestLog.Failures.{write_entries, all_complete, write_entries_reports_once}

-- `json.Valid` that takes no body for JSON.
abbrev invalid : Bytes → Bool
invalid bs = false

-- The request body in two chunks, and a response of one chunk with a status.
abbrev events : List Event
events =
    chose "http://a" ∷ read (5 ∷ []) ∷ read (6 ∷ []) ∷ write_header 201 ∷ write_body (7 ∷ []) ∷ []

abbrev entry : ReqLogEntry
entry = record {
  time = 3;
  duration_ms = 4;
  method = "POST";
  path = "/";
  status = 201;
  backend = "http://a";
  request = text (5 ∷ 6 ∷ []);
  request_truncated = false;
  response = text (7 ∷ []);
  response_truncated = false;
}

finish_test : finish invalid 4 (some (observe_all events (begin 3 "POST" "/" true))) ≡ some entry
unfolding finish begin observe
finish_test = refl

finish-informational_example :
    (e : ReqLogEntry) × (finish invalid 4
        (some (observe_all (write_header 103 ∷ events) (begin 3 "POST" "/" true)))
      ≡ some e)
    × (e.status ≡ 103)
    × (e.status ≢ client_status (write_header 103 ∷ events))
finish-informational_example =
    finish-informational invalid 3 4 "POST" "/" true 103 events refl (omega arith, refl, tt)

-- An encoder of nothing but the newline.
abbrev encode : ReqLogEntry → Result String Bytes
encode e = ok (10 ∷ [])

abbrev newline : ReqLogEntry → Bytes
newline e = 10 ∷ []

abbrev working : RequestLog
working = record { file = 1 ∷ []; failed = false }

write_entries_test :
    (write_entries encode (all_complete (entry ∷ entry ∷ [])) working).0.file ≡ 1 ∷ 10 ∷ 10 ∷ []
unfolding write_entry
write_entries_test = refl

write_entries_reports_once_example :
    ((write_entries encode ((broken 0 "full", entry) ∷ (broken 0 "full", entry) ∷ []) working).1
      ≡ write_failed "full" ∷ [])
    × ((write_entries encode
          ((broken 0 "full", entry) ∷ (broken 0 "full", entry) ∷ [])
          working).0.failed
        ≡ true)
    × ((d : ReqLogEntry) (l' : RequestLog)
        → ((write_entry encode complete d l').0.failed ≡ false)
          × ((write_entry encode complete d l').1 ≡ []))
write_entries_reports_once_example =
    write_entries_reports_once encode newline (λ e. refl) 0 "full" entry
      ((broken 0 "full", entry) ∷ []) working refl tt
