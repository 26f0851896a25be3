-- ===== src/RequestLog.antt =====
-- lib/reqlog.go: what the request log records of one request and its response, and how the entries
-- are written. `json.Valid` and the JSON encoder are parameters, and so is what `os.File.Write` did.
use go_load_balance.Prelude.{
  ℕ, ◌+◌, ◌*◌, Bool, true, false, List, [], ◌∷◌, ◌++◌, String, Option, none, some, Result, ok, err,
  ℤ, ◌==◌, if◌then◌else◌, take,
}
use go_load_balance.Chain.{Bytes}
use go_load_balance.Capture.{CapBuffer, write}
use go_load_balance.Capture.Prefix.{empty_buffer}
pub mod Entries
pub mod Status
pub mod Failures

-- `tees` says whether `begin` has put its reader in the place of the request's body.
pub record ReqLogCapture : Type 0 where
  pub start : ℕ
  pub method : String
  pub path : String
  pub backend : String
  pub status : ℕ
  pub tees : Bool
  pub req_buf : CapBuffer
  pub resp_buf : CapBuffer

unfoldable pub begin : (now : ℕ) (method path : String) (has_body : Bool) → ReqLogCapture
begin now method path has_body = record {
  start = now;
  method = method;
  path = path;
  backend = "";
  status = 0;
  tees = has_body;
  req_buf = empty_buffer 0;
  resp_buf = empty_buffer 0;
}

-- A nil capture stays nil.
unfoldable pub set_backend : (url : String) → Option ReqLogCapture → Option ReqLogCapture
set_backend url none = none
set_backend url (some c) = some (record c { backend = url })

-- What the handler, the proxy and the transport do with the request and the response writer.
pub data Event : Type 0 where
  read : Bytes → Event
  chose : (url : String) → Event
  write_header : (code : ℕ) → Event
  write_body : Bytes → Event

-- `WriteHeader` and `Write` of the response writer, `setBackend`, and the reader of the body.
unfoldable pub observe : Event → ReqLogCapture → ReqLogCapture
unfolding write
observe (read p) c = if c.tees then record c { req_buf = (write p c.req_buf).0 } else c
observe (chose url) c = record c { backend = url }
observe (write_header code) c = if c.status == 0 then record c { status = code } else c
observe (write_body p) c = record c {
  status = if c.status == 0 then 200 else c.status;
  resp_buf = (write p c.resp_buf).0;
}

pub data BodyValue : Type 0 where
  null : BodyValue
  raw_json : Bytes → BodyValue
  text : Bytes → BodyValue

abbrev pub body_value : (valid : Bytes → Bool) → Bytes → BodyValue
body_value valid [] = null
body_value valid (b ∷ bs) = if valid (b ∷ bs) then raw_json (b ∷ bs) else text (b ∷ bs)

-- Times in nanoseconds; `duration_ms` is what `time.Since` and `Milliseconds` give.
pub record ReqLogEntry : Type 0 where
  pub time : ℕ
  pub duration_ms : ℕ
  pub method : String
  pub path : String
  pub status : ℕ
  pub backend : String
  pub request : BodyValue
  pub request_truncated : Bool
  pub response : BodyValue
  pub response_truncated : Bool

abbrev pub entry_of : (valid : Bytes → Bool) (duration_ms : ℕ) → ReqLogCapture → ReqLogEntry
entry_of valid duration_ms c = record {
  time = c.start;
  duration_ms = duration_ms;
  method = c.method;
  path = c.path;
  status = if c.status == 0 then 200 else c.status;
  backend = c.backend;
  request = body_value valid c.req_buf.buf;
  request_truncated = c.req_buf.truncated;
  response = body_value valid c.resp_buf.buf;
  response_truncated = c.resp_buf.truncated;
}

-- The entry that `finish` hands on, none for a nil capture.
unfoldable pub finish :
    (valid : Bytes → Bool) (duration_ms : ℕ) → Option ReqLogCapture → Option ReqLogEntry
finish valid duration_ms none = none
finish valid duration_ms (some c) = some (entry_of valid duration_ms c)

-- The file's contents, and whether the last write failed.
pub record RequestLog : Type 0 where
  pub file : Bytes
  pub failed : Bool

-- What `os.File.Write` did: it wrote everything, or the first `n` bytes and then failed.
pub data Wrote : Type 0 where
  complete : Wrote
  broken : (n : ℕ) (error : String) → Wrote

pub data LogError : Type 0 where
  encode_failed write_failed : (error : String) → LogError

abbrev pub write_bytes : Wrote → Bytes → RequestLog → RequestLog × List LogError
write_bytes complete line l = (record { file = l.file ++ line; failed = false }, [])
write_bytes (broken n error) line l = (
  record { file = l.file ++ take n line; failed = true },
  if l.failed then [] else write_failed error ∷ [],
)

abbrev pub write_encoded : Wrote → Result String Bytes → RequestLog → RequestLog × List LogError
write_encoded wrote (err error) l = (l, encode_failed error ∷ [])
write_encoded wrote (ok line) l = write_bytes wrote line l

-- `write` of an entry; `encode` ends a line with a newline.
unfoldable pub write_entry :
    (encode : ReqLogEntry → Result String Bytes)
    → Wrote
    → ReqLogEntry
    → RequestLog
    → RequestLog × List LogError
write_entry encode wrote e l = write_encoded wrote (encode e) l
