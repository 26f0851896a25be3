-- ===== src/Exchange.antt =====
-- A request from its arrival to its end, with what the request log sees of it (lib/balancer.go,
-- `ServeHTTP`; lib/cacheaware.go, `serveCacheAware`). What the client sends and what the proxy
-- comes to are arguments.
use Prim.Native.Char.{code}
use go_load_balance.Prelude.{
  ℕ, Bool, true, false, List, [], ◌∷◌, ◌++◌, map, String, Option, none, some, if◌then◌else◌,
  get_elem?, modify,
}
use go_load_balance.Backend.{Backend, LogLine, Handled, error_handler, modify_response}
use go_load_balance.Affinity.{Affinity}
use go_load_balance.Chain.{Bytes, Codec}
use go_load_balance.Pool.{Pool, release}
use go_load_balance.Serve.{
  Body, no_body, too_large, unreadable, complete, Answer, Reply, proxied, answered, aborted,
  serve_http,
}
use go_load_balance.RequestLog.{
  Event, read, chose, write_header, write_body, begin, finish, ReqLogEntry,
}
use go_load_balance.RequestLog.Entries.{observe_all}
pub mod Events
pub mod Slots
pub mod Told
pub mod Logged
pub mod Whole

-- The bytes of an ASCII text.
abbrev pub codes : String → Bytes
codes String.[] = []
codes (String.◌∷◌ c s) = code c ∷ codes s

-- What `io.ReadAll` of a body bounded by `http.MaxBytesReader` comes to.
pub data ReadAll : Type 0 where
  over_limit failed_read : ReadAll
  all_of : Bytes → ReadAll

-- `has_body` is `r.Body != nil && r.Body != http.NoBody`. `chunks` is what `io.ReadAll` reads of the
-- body, in the pieces in which it passes the reader of the request log, and `read_all` is its result.
pub record Request : Type 0 where
  pub method : String
  pub path : String
  pub has_body : Bool
  pub chunks : List Bytes
  pub read_all : ReadAll

abbrev pub body_read : ReadAll → Body
body_read over_limit = too_large
body_read failed_read = unreadable
body_read (all_of body) = complete body

abbrev pub body_of : Request → Body
body_of req = if req.has_body then body_read req.read_all else no_body

-- What comes of the request to the backend: an error instead of a response, or a response, after
-- informational ones, whose body is copied in chunks, to its end or up to an error.
pub data Upstream : Type 0 where
  failed : (cancelled : Bool) (error : String) → Upstream
  responded : (informational : List ℕ) (status : ℕ) (chunks : List Bytes) (to_end : Bool) → Upstream

-- `reads` is what is read of `r.Body` by the end of the request.
pub record Proxying : Type 0 where
  pub reads : List Bytes
  pub upstream : Upstream

-- The hook that the proxy calls.
unfoldable pub hook : Upstream → Backend → Handled
hook (failed cancelled error) b = error_handler cancelled error b
hook (responded informational status chunks to_end) b = modify_response status b

abbrev pub header_event : Option ℕ → List Event
header_event none = []
header_event (some status) = write_header status ∷ []

-- What the proxy does with the response writer, of backend `b`.
abbrev pub response_events : Upstream → Backend → List Event
response_events (failed cancelled error) b = header_event (hook (failed cancelled error) b).header
response_events (responded informational status chunks to_end) b =
    map write_header informational ++ (write_header status ∷ map write_body chunks)

-- A handler's own answer.
abbrev pub answer_events : Answer → List Event
answer_events a = write_header a.status ∷ write_body (codes a.text) ∷ []

-- What passes the log's reader before the selection, and while the request is proxied:
-- `serveCacheAware` reads the whole body, and hands the proxy a copy.
abbrev pub early_reads : Option Affinity → Request → List Bytes
early_reads none req = []
early_reads (some a) req = req.chunks

abbrev pub late_reads : Option Affinity → Proxying → List Bytes
late_reads none px = px.reads
late_reads (some a) px = []

-- `ReverseProxy` panics with `http.ErrAbortHandler` where the copy of a response fails.
abbrev pub aborts : Upstream → Bool
aborts (failed cancelled error) = false
aborts (responded informational status chunks true) = false
aborts (responded informational status chunks false) = true

-- The hook runs on the backend as it is then.
abbrev pub respond : Upstream → ℕ → Pool → Pool
respond up i p = record p { backends = modify p.backends i (λ b. (hook up b).backend) }

abbrev pub hook_log : Upstream → Option Backend → List LogLine
hook_log up none = []
hook_log up (some b) = (hook up b).log

abbrev pub proxy_events : Proxying → Option Affinity → Option Backend → List Event
proxy_events px o none = []
proxy_events px o (some b) =
    chose b.url ∷ (map read (late_reads o px) ++ response_events px.upstream b)

-- What a request leaves: the pool, what was printed, the entry for the log, and whether the handler
-- panicked. The deferred calls run either way.
pub record Exchanged : Type 0 where
  pub pool : Pool
  pub log : List LogLine
  pub events : List Event
  pub entry : Option ReqLogEntry
  pub panics : Bool

-- `logs` says whether the pool has a request log.
module _ (logs : Bool) (valid : Bytes → Bool) (now duration_ms : ℕ) (req : Request) where
  abbrev pub entry_for : List Event → Option ReqLogEntry
  entry_for es =
      finish valid duration_ms
        (if logs then some (observe_all es (begin now req.method req.path req.has_body)) else none)

  abbrev pub conclude : Proxying → Option Affinity → Pool × Reply → Exchanged
  conclude px o (p, proxied i) =
      let es = map read (early_reads o req) ++ proxy_events px o (get_elem? p.backends i) in
      record {
        pool = release i (respond px.upstream i p);
        log = hook_log px.upstream (get_elem? p.backends i);
        events = es;
        entry = entry_for es;
        panics = aborts px.upstream;
      }
  conclude px o (p, answered a) =
      let es = map read (early_reads o req) ++ answer_events a in
      record { pool = p; log = []; events = es; entry = entry_for es; panics = false }
  conclude px o (p, aborted) =
      let es = map read (early_reads o req) in
      record { pool = p; log = []; events = es; entry = entry_for es; panics = true }

  -- `ServeHTTP`, with nothing else going on.
  unfoldable pub exchange : Codec → (intn : ℕ → ℕ) → Proxying → Pool → Exchanged
  unfolding hook
  exchange codec intn px p = conclude px p.affinity (serve_http codec intn now (body_of req) p)
