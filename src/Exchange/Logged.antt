-- ===== src/Exchange/Logged.antt =====
-- A whole request in the request log.
use go_load_balance.Prelude.{
  ℕ, ◌≡◌, refl, sym, ap, ◌∙◌, subst, Bool, true, false, List, [], ◌++◌, append-nil, map, Option,
  none, some, get_elem?,
}
use go_load_balance.Backend.{Backend}
use go_load_balance.Affinity.{Affinity}
use go_load_balance.Chain.{Bytes, Codec}
use go_load_balance.Pool.{Pool}
use go_load_balance.Serve.{Answer, Reply, proxied, answered, aborted, serve_http}
use go_load_balance.RequestLog.{Event, read, ReqLogEntry, finish}
use go_load_balance.RequestLog.Entries.{reads, kept_of, is_cut, seen_reads, finish_keeps}
use go_load_balance.RequestLog.Status.{finish-status}
use go_load_balance.Exchange.Told.{
  Record, logged_status, IsPlain, record_at, record_of, expected_body, Tells, Tells-request,
  IsFinal, serve_http-IsFinal, response-Tells, read-Tells,
}
use go_load_balance.Exchange.Events.{
  reads-read, writes-read, chosen-read, client_status-read, read-AllFinal,
}
use go_load_balance.Exchange.{
  Request, Proxying, answer_events, early_reads, late_reads, proxy_events, body_of, entry_for,
  conclude, exchange,
}

abbrev pub body_seen : Bool → List Bytes → List Bytes
body_seen true chunks = chunks
body_seen false chunks = []

body_seen-reads :
    (has_body : Bool) (es : List Event) (chunks : List Bytes)
    → reads es ≡ chunks
    → seen_reads has_body es ≡ body_seen has_body chunks
body_seen-reads true es chunks e = e
body_seen-reads false es chunks e = refl

module _ (valid : Bytes → Bool) (now duration_ms : ℕ) (req : Request) where
  -- An entry of the log says what the record says, of the bodies as much as the captures keep.
  pub record Describes (e : ReqLogEntry) (r : Record) : Type 0 where
    pub status : e.status ≡ logged_status r.status
    pub backend : e.backend ≡ r.backend
    pub request : e.request ≡ kept_of valid (body_seen req.has_body r.request)
    pub request_truncated : e.request_truncated ≡ is_cut (body_seen req.has_body r.request)
    pub response : e.response ≡ kept_of valid r.response
    pub response_truncated : e.response_truncated ≡ is_cut r.response

  Tells-Describes :
      (es : List Event) (r : Record)
      → Tells es r
      → (e : ReqLogEntry) × (entry_for true valid now duration_ms req es ≡ some e) × Describes e r
  Tells-Describes es r t =
      let (e, made, backend, request, cut_request, response, cut_response) =
        finish_keeps valid now duration_ms req.method req.path req.has_body es in
      let (e', made', status) =
        finish-status valid now duration_ms req.method req.path req.has_body es t.final in
      let same : e' ≡ e = cc in
      let seen = body_seen-reads req.has_body es r.request t.request in
      (
        e,
        made,
        record {
          status = ap (λ (x : ReqLogEntry). x.status) (sym same) ∙ status ∙ t.status;
          backend = backend ∙ t.backend;
          request = request ∙ ap (kept_of valid) seen;
          request_truncated = cut_request ∙ ap is_cut seen;
          response = response ∙ ap (kept_of valid) t.response;
          response_truncated = cut_response ∙ ap is_cut t.response;
        },
      )

  early-expected :
      (px : Proxying) (o : Option Affinity) → early_reads o req ≡ expected_body o req px false
  early-expected px none = refl
  early-expected px (some a) = refl

  late-expected :
      (px : Proxying) (o : Option Affinity)
      → early_reads o req ++ late_reads o px ≡ expected_body o req px true
  late-expected px none = refl
  late-expected px (some a) = append-nil req.chunks

  proxied-Tells :
      (px : Proxying) (o : Option Affinity) (b : Option Backend)
      → IsPlain px.upstream
      → Tells (map read (early_reads o req) ++ proxy_events px o b) (record_at req px o b)
  proxied-Tells px o none plain =
      let cs = early_reads o req in
      record {
        final = read-AllFinal cs [] tt;
        status = client_status-read cs [];
        response = writes-read cs [];
        backend = chosen-read "" cs [];
        request = reads-read cs [] ∙ append-nil cs ∙ early-expected px o;
      }
  proxied-Tells px o (some b) plain =
      Tells-request _ _ (expected_body o req px true)
        (read-Tells (early_reads o req) _ _ (response-Tells px.upstream b (late_reads o px) plain))
        (late-expected px o)

  answer-Tells :
      (o : Option Affinity) (px : Proxying) (bs : List Backend) (a : Answer)
      → IsFinal (answered a)
      → Tells (map read (early_reads o req) ++ answer_events a) (record_of req px o bs (answered a))
  answer-Tells o px bs a (from, final) =
      let cs = early_reads o req in
      record {
        final = read-AllFinal cs (answer_events a) (from, final, tt);
        status = client_status-read cs (answer_events a) ∙ rw final refl;
        response = writes-read cs (answer_events a);
        backend = chosen-read "" cs (answer_events a);
        request = reads-read cs (answer_events a) ∙ append-nil cs ∙ early-expected px o;
      }

  conclude-Tells :
      (px : Proxying) (o : Option Affinity) (r : Pool × Reply)
      → IsPlain px.upstream
      → IsFinal r.1
      → Tells
          (conclude true valid now duration_ms req px o r).events
          (record_of req px o r.0.backends r.1)
  conclude-Tells px o (p, proxied i) plain final = proxied-Tells px o (get_elem? p.backends i) plain
  conclude-Tells px o (p, answered a) plain final = answer-Tells o px p.backends a final
  conclude-Tells px o (p, aborted) plain final =
      subst (λ es. Tells es (record_at req px o none)) (append-nil (map read (early_reads o req)))
        (proxied-Tells px o none plain)

  unlogged : (es : List Event) → entry_for false valid now duration_ms req es ≡ none
  unfolding finish
  unlogged es = refl

  conclude_entry :
      (logs : Bool) (px : Proxying) (o : Option Affinity) (r : Pool × Reply)
      → (conclude logs valid now duration_ms req px o r).entry
        ≡ entry_for logs valid now duration_ms req
            (conclude logs valid now duration_ms req px o r).events
  conclude_entry logs px o (p, proxied i) = refl
  conclude_entry logs px o (p, answered a) = refl
  conclude_entry logs px o (p, aborted) = refl

  pub exchange_logs :
      (codec : Codec) (intn : ℕ → ℕ) (px : Proxying) (p : Pool)
      → IsPlain px.upstream
      → ((e : ReqLogEntry) × ((exchange true valid now duration_ms req codec intn px p).entry
            ≡ some e)
          × Describes e (
              record_of req px p.affinity
                (serve_http codec intn now (body_of req) p).0.backends
                (serve_http codec intn now (body_of req) p).1))
        × ((exchange false valid now duration_ms req codec intn px p).entry ≡ none)
  unfolding exchange
  exchange_logs codec intn px p plain =
      let r = serve_http codec intn now (body_of req) p in
      let final = serve_http-IsFinal codec intn now (body_of req) p in
      let (e, made, says) = Tells-Describes _ _ (conclude-Tells px p.affinity r plain final) in
      (
        (e, conclude_entry true px p.affinity r ∙ made, says),
        conclude_entry false px p.affinity r
            ∙ unlogged (conclude false valid now duration_ms req px p.affinity r).events,
      )
