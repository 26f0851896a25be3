-- ===== src/Exchange/Told.antt =====
-- What the events of a request tell, over every way that it can end.
use go_load_balance.Prelude.{
  Bool, ℕ, ◌≤◌, ◌≡◌, refl, ap, ◌∙◌, true, false, List, [], ◌∷◌, ◌++◌, append-nil, map, String,
  Option, none, some, get_elem?, arith,
}
use go_load_balance.Backend.{Backend, error_handler}
use go_load_balance.Affinity.{Affinity}
use go_load_balance.Chain.{Bytes, Codec}
use go_load_balance.Pool.{Pool, Choice, picked, refused, panicked, at_capacity, no_healthy_backends}
use go_load_balance.Serve.{
  Body, no_body, too_large, unreadable, complete, Reply, reply, proxied, answered, aborted,
  serve_mode, serve_cache_aware, serve_http, write_select_error,
}
use go_load_balance.RequestLog.{Event, read, chose, write_header, write_body}
use go_load_balance.RequestLog.Entries.{reads, writes, chosen}
use go_load_balance.RequestLog.Status.{AllFinal, client_status, is_informational}
use go_load_balance.Exchange.Events.{
  reads-read, writes-read, chosen-read, client_status-read, read-AllFinal, write_body-AllFinal,
  reads-write_body, writes-write_body, chosen-write_body,
}
use go_load_balance.Exchange.{
  codes, Request, Upstream, failed, responded, Proxying, hook, response_events,
}

-- What a request comes to: the status that the client was sent (`none` where it was sent nothing),
-- the body in pieces, the backend that served it, and what was read of the request's body.
pub record Record : Type 0 where
  pub status : Option ℕ
  pub response : List Bytes
  pub backend : String
  pub request : List Bytes

-- A client that has gone is sent nothing.
abbrev pub sent_status : Upstream → Option ℕ
sent_status (failed true error) = none
sent_status (failed false error) = some 502
sent_status (responded informational status chunks to_end) = some status

-- The log has a status in every entry: 200 where the client was sent none.
abbrev pub logged_status : Option ℕ → ℕ
logged_status none = 200
logged_status (some status) = status

abbrev pub chunks_of : Upstream → List Bytes
chunks_of (failed cancelled error) = []
chunks_of (responded informational status chunks to_end) = chunks

-- The response has no informational ones before it.
abbrev pub IsPlain : Upstream → Type 0
IsPlain (failed cancelled error) = Unit {0}
IsPlain (responded informational status chunks to_end) =
    (informational ≡ []) × (100 ≤ status) × (is_informational status ≡ false)

-- What is to be read of the request's body: in cache-aware mode the body once, as it comes in; in the
-- other mode what the proxy reads, if the request is proxied.
abbrev pub expected_body : Option Affinity → Request → Proxying → (is_proxied : Bool) → List Bytes
expected_body none req px true = px.reads
expected_body none req px false = []
expected_body (some a) req px is_proxied = req.chunks

abbrev pub record_at : Request → Proxying → Option Affinity → Option Backend → Record
record_at req px o none = record {
  status = none;
  response = [];
  backend = "";
  request = expected_body o req px false;
}
record_at req px o (some b) = record {
  status = sent_status px.upstream;
  response = chunks_of px.upstream;
  backend = b.url;
  request = expected_body o req px true;
}

-- For a reply over these backends.
abbrev pub record_of : Request → Proxying → Option Affinity → List Backend → Reply → Record
record_of req px o bs (answered a) = record {
  status = some a.status;
  response = codes a.text ∷ [];
  backend = "";
  request = expected_body o req px false;
}
record_of req px o bs (proxied i) = record_at req px o (get_elem? bs i)
record_of req px o bs aborted = record_at req px o none

pub record Tells (es : List Event) (r : Record) : Type 0 where
  pub final : AllFinal es
  pub status : client_status es ≡ logged_status r.status
  pub response : writes es ≡ r.response
  pub backend : chosen "" es ≡ r.backend
  pub request : reads es ≡ r.request

abbrev pub IsFinal : Reply → Type 0
IsFinal (answered a) = (100 ≤ a.status) × (is_informational a.status ≡ false)
IsFinal (proxied i) = Unit {0}
IsFinal aborted = Unit {0}

reply-IsFinal : (c : Choice) → IsFinal (reply c)
unfolding write_select_error
reply-IsFinal (picked i) = tt
reply-IsFinal (refused at_capacity) = (omega arith, refl)
reply-IsFinal (refused no_healthy_backends) = (omega arith, refl)
reply-IsFinal panicked = tt

serve_cache_aware-IsFinal :
    (codec : Codec) (intn : ℕ → ℕ) (now : ℕ) (body : Body) (p : Pool)
    → IsFinal (serve_cache_aware codec intn now body p).1
unfolding serve_cache_aware
serve_cache_aware-IsFinal codec intn now no_body p = reply-IsFinal _
serve_cache_aware-IsFinal codec intn now too_large p = (omega arith, refl)
serve_cache_aware-IsFinal codec intn now unreadable p = (omega arith, refl)
serve_cache_aware-IsFinal codec intn now (complete body) p = reply-IsFinal _

serve_mode-IsFinal :
    (codec : Codec) (intn : ℕ → ℕ) (now : ℕ) (body : Body) (p : Pool) (o : Option Affinity)
    → IsFinal (serve_mode codec intn now body p o).1
serve_mode-IsFinal codec intn now body p none = reply-IsFinal _
serve_mode-IsFinal codec intn now body p (some a) = serve_cache_aware-IsFinal codec intn now body p

pub serve_http-IsFinal :
    (codec : Codec) (intn : ℕ → ℕ) (now : ℕ) (body : Body) (p : Pool)
    → IsFinal (serve_http codec intn now body p).1
unfolding serve_http
serve_http-IsFinal codec intn now body p = serve_mode-IsFinal codec intn now body p p.affinity

-- The events of a response alone.
pub response-Tells :
    (up : Upstream) (b : Backend) (cs : List Bytes)
    → IsPlain up
    → Tells
        (chose b.url ∷ (map read cs ++ response_events up b))
        (record { status = sent_status up; response = chunks_of up; backend = b.url; request = cs })
unfolding hook error_handler
response-Tells (failed true error) b cs plain = record {
  final = read-AllFinal cs [] tt;
  status = client_status-read cs [];
  response = writes-read cs [];
  backend = chosen-read b.url cs [];
  request = reads-read cs [] ∙ append-nil cs;
}
response-Tells (failed false error) b cs plain = record {
  final = read-AllFinal cs (write_header 502 ∷ []) (omega arith, refl, tt);
  status = client_status-read cs (write_header 502 ∷ []);
  response = writes-read cs (write_header 502 ∷ []);
  backend = chosen-read b.url cs (write_header 502 ∷ []);
  request = reads-read cs (write_header 502 ∷ []) ∙ append-nil cs;
}
response-Tells (responded (code ∷ codes) status chunks to_end) b cs (bare, from, final) = cc
response-Tells (responded [] status chunks to_end) b cs (bare, from, final) =
    let es = write_header status ∷ map write_body chunks in
    record {
      final = read-AllFinal cs es (from, final, write_body-AllFinal chunks);
      status = client_status-read cs es ∙ rw final refl;
      response = writes-read cs es ∙ writes-write_body chunks;
      backend = chosen-read b.url cs es ∙ chosen-write_body b.url chunks;
      request = reads-read cs es ∙ ap (λ l. cs ++ l) (reads-write_body chunks) ∙ append-nil cs;
    }

pub Tells-request :
    (es : List Event) (r : Record) (cs : List Bytes)
    → Tells es r
    → r.request ≡ cs
    → Tells es (record r { request = cs })
Tells-request es r cs t e = record {
  final = t.final;
  status = t.status;
  response = t.response;
  backend = t.backend;
  request = t.request ∙ e;
}

-- What was read before, put in front.
pub read-Tells :
    (cs : List Bytes) (es : List Event) (r : Record)
    → Tells es r
    → Tells (map read cs ++ es) (record r { request = cs ++ r.request })
read-Tells cs es r t = record {
  final = read-AllFinal cs es t.final;
  status = client_status-read cs es ∙ t.status;
  response = writes-read cs es ∙ t.response;
  backend = chosen-read "" cs es ∙ t.backend;
  request = reads-read cs es ∙ ap (λ l. cs ++ l) t.request;
}
