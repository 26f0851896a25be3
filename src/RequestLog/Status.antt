-- ===== src/RequestLog/Status.antt =====
-- The status of an entry against the status that the client receives.
use go_load_balance.Prelude.{
  ℕ, zero, suc, ◌≤◌, ◌≡◌, ◌≢◌, refl, sym, ap, ◌∙◌, Bool, true, false, not, ◌&&◌, List, [], ◌∷◌,
  String, some, ◌==◌, leb, if◌then◌else◌, arith,
}
use go_load_balance.Chain.{Bytes}
use go_load_balance.RequestLog.{
  ReqLogCapture, begin, Event, read, chose, write_header, write_body, observe, ReqLogEntry,
  entry_of, finish,
}
use go_load_balance.RequestLog.Entries.{observe_all}

-- A 1xx status that another one follows; 101 is final.
abbrev pub is_informational : ℕ → Bool
is_informational code = leb 100 code && leb code 199 && not (code == 101)

-- What `net/http` sends as the final status: that of the first header that is not informational,
-- or 200 with the first byte of the body, or 200 at the end.
abbrev pub client_status : List Event → ℕ
client_status [] = 200
client_status (read p ∷ es) = client_status es
client_status (chose url ∷ es) = client_status es
client_status (write_header code ∷ es) = if is_informational code then client_status es else code
client_status (write_body p ∷ es) = 200

-- Every status that is written is at least 100, as `net/http` demands, and none is informational.
abbrev pub AllFinal : List Event → Type 0
AllFinal [] = Unit {0}
AllFinal (read p ∷ es) = AllFinal es
AllFinal (chose url ∷ es) = AllFinal es
AllFinal (write_header code ∷ es) = (100 ≤ code) × (is_informational code ≡ false) × AllFinal es
AllFinal (write_body p ∷ es) = AllFinal es

read-status : (p : Bytes) (c : ReqLogCapture) → (observe (read p) c).status ≡ c.status
unfolding observe
read-status p c = ground arith

-- A status that is set stays.
observe_all-status_set :
    (es : List Event) (c : ReqLogCapture) (n : ℕ)
    → c.status ≡ suc n
    → (observe_all es c).status ≡ suc n
unfolding observe
observe_all-status_set [] c n set = set
observe_all-status_set (read p ∷ es) c n set =
    observe_all-status_set es (observe (read p) c) n (read-status p c ∙ set)
observe_all-status_set (chose url ∷ es) c n set =
    observe_all-status_set es (observe (chose url) c) n set
observe_all-status_set (write_header code ∷ es) c n set =
    observe_all-status_set es (observe (write_header code) c) n (ground arith)
observe_all-status_set (write_body p ∷ es) c n set =
    observe_all-status_set es (observe (write_body p) c) n (ground arith)

abbrev recorded : ReqLogCapture → ℕ
recorded c = if c.status == 0 then 200 else c.status

observe_all-recorded :
    (es : List Event) (c : ReqLogCapture)
    → c.status ≡ 0
    → AllFinal es
    → recorded (observe_all es c) ≡ client_status es
unfolding observe
observe_all-recorded [] c unset final = ground arith
observe_all-recorded (read p ∷ es) c unset final =
    observe_all-recorded es (observe (read p) c) (read-status p c ∙ unset) final
observe_all-recorded (chose url ∷ es) c unset final =
    observe_all-recorded es (observe (chose url) c) unset final
observe_all-recorded (write_header zero ∷ es) c unset final = absurd (omega (arith, final.0))
observe_all-recorded (write_header (suc n) ∷ es) c unset final =
    ground (arith, final.1, observe_all-status_set es (observe (write_header (suc n)) c) n)
observe_all-recorded (write_body p ∷ es) c unset final =
    ground (arith, observe_all-status_set es (observe (write_body p) c) 199)

-- The entry has the status that the client receives, where no informational status is written.
pub finish-status :
    (valid : Bytes → Bool) (now duration_ms : ℕ) (method path : String) (has_body : Bool)
    (es : List Event)
    → AllFinal es
    → (e : ReqLogEntry) × (finish valid duration_ms
          (some (observe_all es (begin now method path has_body)))
        ≡ some e)
      × (e.status ≡ client_status es)
unfolding finish begin
finish-status valid now duration_ms method path has_body es final =
    let c = begin now method path has_body in
    (entry_of valid duration_ms (observe_all es c), refl, observe_all-recorded es c refl final)

client_status-final : (es : List Event) → AllFinal es → is_informational (client_status es) ≡ false
client_status-final [] final = refl
client_status-final (read p ∷ es) final = client_status-final es final
client_status-final (chose url ∷ es) final = client_status-final es final
client_status-final (write_header code ∷ es) (_, no_more, final) = rw no_more no_more
client_status-final (write_body p ∷ es) final = refl

header-recorded :
    (code : ℕ) (es : List Event) (c : ReqLogCapture)
    → c.status ≡ 0
    → is_informational code ≡ true
    → recorded (observe_all (write_header code ∷ es) c) ≡ code
unfolding observe
header-recorded zero es c unset informational = ground (arith, informational)
header-recorded (suc n) es c unset informational =
    ground (arith, observe_all-status_set es (observe (write_header (suc n)) c) n)

-- Where an informational status is written first, the entry has that one, and the client receives
-- another if a final status that is not informational is written after it.
pub finish-informational :
    (valid : Bytes → Bool) (now duration_ms : ℕ) (method path : String) (has_body : Bool) (code : ℕ)
    (es : List Event)
    → is_informational code ≡ true
    → AllFinal es
    → (e : ReqLogEntry) × (finish valid duration_ms
          (some (observe_all (write_header code ∷ es) (begin now method path has_body)))
        ≡ some e)
      × (e.status ≡ code)
      × (e.status ≢ client_status (write_header code ∷ es))
unfolding finish begin
finish-informational valid now duration_ms method path has_body code es informational final =
    let c = begin now method path has_body in
    let kept = header-recorded code es c refl informational in
    let other = client_status-final es final in
    (
      entry_of valid duration_ms (observe_all (write_header code ∷ es) c),
      refl,
      kept,
      λ same.
          let received : code ≡ client_status es = sym kept ∙ same ∙ rw informational refl in
          cc (sym informational ∙ ap is_informational received ∙ other),
    )
