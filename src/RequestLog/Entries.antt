-- ===== src/RequestLog/Entries.antt =====
-- The entry of a request against what went through its reader and its response writer.
use go_load_balance.Prelude.{
  ℕ, ◌≡◌, refl, ap, ◌∙◌, Bool, true, false, List, [], ◌∷◌, String, some, take, ltb, length, arith,
}
use go_load_balance.Chain.{Bytes}
use go_load_balance.Capture.{CapBuffer, req_log_max_capture, write}
use go_load_balance.Capture.Prefix.{empty_buffer, write_all, joined, write_all-kept}
use go_load_balance.RequestLog.{
  ReqLogCapture, begin, Event, read, chose, write_header, write_body, observe, BodyValue,
  body_value, ReqLogEntry, entry_of, finish,
}

-- A capture after the events of its request.
abbrev pub observe_all : List Event → ReqLogCapture → ReqLogCapture
observe_all [] c = c
observe_all (e ∷ es) c = observe_all es (observe e c)

-- The chunks that were read of the request body, and those written of the response body.
abbrev pub reads : List Event → List Bytes
reads [] = []
reads (read p ∷ es) = p ∷ reads es
reads (chose url ∷ es) = reads es
reads (write_header code ∷ es) = reads es
reads (write_body p ∷ es) = reads es

abbrev pub writes : List Event → List Bytes
writes [] = []
writes (read p ∷ es) = writes es
writes (chose url ∷ es) = writes es
writes (write_header code ∷ es) = writes es
writes (write_body p ∷ es) = p ∷ writes es

-- The backend that was chosen last.
abbrev pub chosen : String → List Event → String
chosen url [] = url
chosen url (read p ∷ es) = chosen url es
chosen url (chose url' ∷ es) = chosen url' es
chosen url (write_header code ∷ es) = chosen url es
chosen url (write_body p ∷ es) = chosen url es

-- What the entry keeps of a body, and whether that is all of it.
abbrev pub kept_of : (valid : Bytes → Bool) → List Bytes → BodyValue
kept_of valid chunks = body_value valid (take req_log_max_capture (joined chunks))

abbrev pub is_cut : List Bytes → Bool
is_cut chunks = ltb req_log_max_capture (length (joined chunks))

observe-tees : (e : Event) (c : ReqLogCapture) → (observe e c).tees ≡ c.tees
unfolding observe
observe-tees (read p) c = ground arith
observe-tees (chose url) c = refl
observe-tees (write_header code) c = ground arith
observe-tees (write_body p) c = refl

-- One event, on each of the parts that the entry is made of.
read-req_buf :
    (p : Bytes) (c : ReqLogCapture)
    → c.tees ≡ true
    → (observe (read p) c).req_buf ≡ (write p c.req_buf).0
unfolding observe
read-req_buf p c tees = ground arith

header-req_buf :
    (code : ℕ) (c : ReqLogCapture) → (observe (write_header code) c).req_buf ≡ c.req_buf
unfolding observe
header-req_buf code c = ground arith

read-resp_buf : (p : Bytes) (c : ReqLogCapture) → (observe (read p) c).resp_buf ≡ c.resp_buf
unfolding observe
read-resp_buf p c = ground arith

header-resp_buf :
    (code : ℕ) (c : ReqLogCapture) → (observe (write_header code) c).resp_buf ≡ c.resp_buf
unfolding observe
header-resp_buf code c = ground arith

read-backend : (p : Bytes) (c : ReqLogCapture) → (observe (read p) c).backend ≡ c.backend
unfolding observe
read-backend p c = ground arith

header-backend :
    (code : ℕ) (c : ReqLogCapture) → (observe (write_header code) c).backend ≡ c.backend
unfolding observe
header-backend code c = ground arith

observe_all-req_buf :
    (es : List Event) (c : ReqLogCapture)
    → c.tees ≡ true
    → (observe_all es c).req_buf ≡ write_all (reads es) c.req_buf
unfolding observe
observe_all-req_buf [] c tees = refl
observe_all-req_buf (read p ∷ es) c tees =
    observe_all-req_buf es (observe (read p) c) (observe-tees (read p) c ∙ tees)
    ∙ ap (write_all (reads es)) (read-req_buf p c tees)
observe_all-req_buf (chose url ∷ es) c tees = observe_all-req_buf es (observe (chose url) c) tees
observe_all-req_buf (write_header code ∷ es) c tees =
    observe_all-req_buf es (observe (write_header code) c)
      (observe-tees (write_header code) c ∙ tees)
    ∙ ap (write_all (reads es)) (header-req_buf code c)
observe_all-req_buf (write_body p ∷ es) c tees =
    observe_all-req_buf es (observe (write_body p) c) tees

observe_all-resp_buf :
    (es : List Event) (c : ReqLogCapture)
    → (observe_all es c).resp_buf ≡ write_all (writes es) c.resp_buf
unfolding observe
observe_all-resp_buf [] c = refl
observe_all-resp_buf (read p ∷ es) c =
    observe_all-resp_buf es (observe (read p) c) ∙ ap (write_all (writes es)) (read-resp_buf p c)
observe_all-resp_buf (chose url ∷ es) c = observe_all-resp_buf es (observe (chose url) c)
observe_all-resp_buf (write_header code ∷ es) c =
    observe_all-resp_buf es (observe (write_header code) c)
    ∙ ap (write_all (writes es)) (header-resp_buf code c)
observe_all-resp_buf (write_body p ∷ es) c = observe_all-resp_buf es (observe (write_body p) c)

observe_all-backend :
    (es : List Event) (c : ReqLogCapture) → (observe_all es c).backend ≡ chosen c.backend es
unfolding observe
observe_all-backend [] c = refl
observe_all-backend (read p ∷ es) c =
    observe_all-backend es (observe (read p) c) ∙ ap (λ u. chosen u es) (read-backend p c)
observe_all-backend (chose url ∷ es) c = observe_all-backend es (observe (chose url) c)
observe_all-backend (write_header code ∷ es) c =
    observe_all-backend es (observe (write_header code) c)
    ∙ ap (λ u. chosen u es) (header-backend code c)
observe_all-backend (write_body p ∷ es) c = observe_all-backend es (observe (write_body p) c)

read-req_buf_off :
    (p : Bytes) (c : ReqLogCapture) → c.tees ≡ false → (observe (read p) c).req_buf ≡ c.req_buf
unfolding observe
read-req_buf_off p c off = ground arith

-- With no reader in the place of the body nothing is captured of it.
observe_all-req_buf_off :
    (es : List Event) (c : ReqLogCapture) → c.tees ≡ false → (observe_all es c).req_buf ≡ c.req_buf
unfolding observe
observe_all-req_buf_off [] c off = refl
observe_all-req_buf_off (read p ∷ es) c off =
    observe_all-req_buf_off es (observe (read p) c) (observe-tees (read p) c ∙ off)
    ∙ read-req_buf_off p c off
observe_all-req_buf_off (chose url ∷ es) c off =
    observe_all-req_buf_off es (observe (chose url) c) off
observe_all-req_buf_off (write_header code ∷ es) c off =
    observe_all-req_buf_off es (observe (write_header code) c)
      (observe-tees (write_header code) c ∙ off)
    ∙ header-req_buf code c
observe_all-req_buf_off (write_body p ∷ es) c off =
    observe_all-req_buf_off es (observe (write_body p) c) off

-- What the capture sees of the body: nothing where there is none.
abbrev pub seen_reads : Bool → List Event → List Bytes
seen_reads true es = reads es
seen_reads false es = []

begin-req_buf :
    (now : ℕ) (method path : String) (has_body : Bool) (es : List Event)
    → (observe_all es (begin now method path has_body)).req_buf
      ≡ write_all (seen_reads has_body es) (empty_buffer 0)
unfolding begin
begin-req_buf now method path true es = observe_all-req_buf es (begin now method path true) refl
begin-req_buf now method path false es =
    observe_all-req_buf_off es (begin now method path false) refl

-- The entry keeps the first 2 ^ 30 bytes of both bodies, whether or not the request has one.
pub finish_keeps :
    (valid : Bytes → Bool) (now duration_ms : ℕ) (method path : String) (has_body : Bool)
    (es : List Event)
    → (e : ReqLogEntry) × (finish valid duration_ms
          (some (observe_all es (begin now method path has_body)))
        ≡ some e)
      × (e.backend ≡ chosen "" es)
      × (e.request ≡ kept_of valid (seen_reads has_body es))
      × (e.request_truncated ≡ is_cut (seen_reads has_body es))
      × (e.response ≡ kept_of valid (writes es))
      × (e.response_truncated ≡ is_cut (writes es))
unfolding finish begin
finish_keeps valid now duration_ms method path has_body es =
    let c = begin now method path has_body in
    let request = begin-req_buf now method path has_body es in
    let response = observe_all-resp_buf es c in
    let kept_request = write_all-kept (seen_reads has_body es) 0 in
    let kept_response = write_all-kept (writes es) 0 in
    (
      entry_of valid duration_ms (observe_all es c),
      refl,
      observe_all-backend es c,
      ap (λ (b : CapBuffer). body_value valid b.buf) request ∙ ap (body_value valid) kept_request.0,
      ap (λ (b : CapBuffer). b.truncated) request ∙ kept_request.1,
      ap (λ (b : CapBuffer). body_value valid b.buf) response
          ∙ ap (body_value valid) kept_response.0,
      ap (λ (b : CapBuffer). b.truncated) response ∙ kept_response.1,
    )

-- The entry of a request with a body has the last backend that was chosen, if any, and of each of
-- the two bodies what passed by, however it was cut into chunks: its first 2 ^ 30 bytes, as JSON if
-- they are that, as text otherwise, and null if there are none, with a flag that is set exactly if
-- there was more.
finish_records :
    (valid : Bytes → Bool) (now duration_ms : ℕ) (method path : String) (es : List Event)
    → (e : ReqLogEntry) × (finish valid duration_ms
          (some (observe_all es (begin now method path true)))
        ≡ some e)
      × (e.backend ≡ chosen "" es)
      × (e.request ≡ kept_of valid (reads es))
      × (e.request_truncated ≡ is_cut (reads es))
      × (e.response ≡ kept_of valid (writes es))
      × (e.response_truncated ≡ is_cut (writes es))
finish_records valid now duration_ms method path es =
    finish_keeps valid now duration_ms method path true es
