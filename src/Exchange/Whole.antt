-- ===== src/Exchange/Whole.antt =====
-- The two limits on a body, `affinityMaxBody` of lib/cacheaware.go and `reqLogMaxCapture` of
-- lib/reqlog.go: what cache-aware routing accepts the log keeps whole.
use go_load_balance.Prelude.{
  ltb→lt, lt→ltb, Bool-cases, inl, inr, ◌≢◌, ℕ, ◌≤◌, ◌<◌, ◌^◌, ◌≡◌, ◌↔◌, refl, ap, ◌∙◌, Bool, true,
  false, List, Option, some, length, ltb, get_elem?, arith,
}
use go_load_balance.Affinity.{Affinity}
use go_load_balance.Backend.{Backend}
use go_load_balance.Capture.{req_log_max_capture}
use go_load_balance.Capture.Prefix.{take_all, joined}
use go_load_balance.Chain.{Bytes, Codec}
use go_load_balance.Pool.{Pool}
use go_load_balance.Serve.{Reply, proxied, answered, aborted, serve_http}
use go_load_balance.RequestLog.{ReqLogEntry, body_value}
use go_load_balance.RequestLog.Entries.{kept_of, is_cut}
use go_load_balance.Exchange.Told.{IsPlain, record_at, record_of}
use go_load_balance.Exchange.Logged.{exchange_logs, body_seen}
use go_load_balance.Exchange.{
  Request, all_of, over_limit, failed_read, ReadAll, Proxying, body_of, exchange,
}

abbrev pub affinity_max_body : ℕ
affinity_max_body = 2 ^ 30

-- What `io.ReadAll` of an `http.MaxBytesReader` promises: it fails over the limit exactly if it has
-- read more than the limit, and else, where it does not fail, it returns what it has read.
pub record IsReadAll (req : Request) : Type 0 where
  pub over : (req.read_all ≡ over_limit) ↔ (affinity_max_body < length (joined req.chunks))
  pub whole : (raw : Bytes) → req.read_all ≡ all_of raw → joined req.chunks ≡ raw

-- In cache-aware mode the log sees the body as it is read, and nothing more.
at-request :
    (req : Request) (px : Proxying) (a : Affinity) (b : Option Backend)
    → (record_at req px (some a) b).request ≡ req.chunks
at-request req px a Option.none = refl
at-request req px a (some b) = refl

of-request :
    (req : Request) (px : Proxying) (a : Affinity) (bs : List Backend) (r : Reply)
    → (record_of req px (some a) bs r).request ≡ req.chunks
of-request req px a bs (proxied i) = at-request req px a (get_elem? bs i)
of-request req px a bs (answered x) = refl
of-request req px a bs aborted = refl

not_ltb→le : (a b : ℕ) → ltb a b ≡ false → b ≤ a
not_ltb→le a b h = ground arith

-- What the entry says of the body.
abbrev pub LoggedBody : (valid : Bytes → Bool) → ReqLogEntry → ReadAll → Type 0
LoggedBody valid e (all_of raw) = (e.request ≡ body_value valid raw) × (e.request_truncated ≡ false)
LoggedBody valid e failed_read = e.request_truncated ≡ false
LoggedBody valid e over_limit = e.request_truncated ≡ true

-- The two limits are one.
fits_cut : (req : Request) → IsReadAll req → req.read_all ≢ over_limit → is_cut req.chunks ≡ false
fits_cut req reads fits = elim (Bool-cases (is_cut req.chunks)) [
  | inl cut ↦ absurd (fits (reads.over.1 (ltb→lt _ _ cut)))
  | inr uncut ↦ uncut
]

kept_LoggedBody :
    (valid : Bytes → Bool) (req : Request) (e : ReqLogEntry) (ra : ReadAll)
    → IsReadAll req
    → e.request ≡ kept_of valid req.chunks
    → e.request_truncated ≡ is_cut req.chunks
    → req.read_all ≡ ra
    → LoggedBody valid e ra
kept_LoggedBody valid req e over_limit reads kept cut same = cut ∙ lt→ltb _ _ (reads.over.0 same)
kept_LoggedBody valid req e failed_read reads kept cut same = cut ∙ fits_cut req reads (λ over. cc)
kept_LoggedBody valid req e (all_of raw) reads kept cut same =
    let uncut = fits_cut req reads (λ over. cc) in
    let fits : length (joined req.chunks) ≤ req_log_max_capture = not_ltb→le _ _ uncut in
    (
      kept
          ∙ ap (body_value valid) (take_all req_log_max_capture (joined req.chunks) fits)
          ∙ ap (body_value valid) (reads.whole raw same),
      cut ∙ uncut,
    )

-- In cache-aware mode with a request log, for a request with a body whose response has no informational
-- one before it: the entry says that the body was cut exactly if the body was over the limit, and a body
-- that could be read is in the entry whole, as JSON if it is that, as text otherwise, whatever became
-- of the request. `io.ReadAll` is taken to fail over the limit exactly if it has read more, and to
-- return what it has read.
pub exchange_logs_whole :
    (valid : Bytes → Bool) (now duration_ms : ℕ) (req : Request) (codec : Codec) (intn : ℕ → ℕ)
    (px : Proxying) (p : Pool) (a : Affinity)
    → p.affinity ≡ some a
    → req.has_body ≡ true
    → IsReadAll req
    → IsPlain px.upstream
    → (e : ReqLogEntry) × ((exchange true valid now duration_ms req codec intn px p).entry ≡ some e)
      × LoggedBody valid e req.read_all
exchange_logs_whole valid now duration_ms req codec intn px p a on has_body reads plain =
    let ((e, made, says), _) = exchange_logs valid now duration_ms req codec intn px p plain in
    let r = serve_http codec intn now (body_of req) p in
    let seen =
      ap (λ b. body_seen b (record_of req px p.affinity r.0.backends r.1).request) has_body
      ∙ ap (λ o. (record_of req px o r.0.backends r.1).request) on
      ∙ of-request req px a r.0.backends r.1 in
    (
      e,
      made,
      kept_LoggedBody valid req e req.read_all reads (says.request ∙ ap (kept_of valid) seen)
          (says.request_truncated ∙ ap is_cut seen) refl,
    )
