-- ===== src/Exchange/Slots.antt =====
-- A whole request and the connection counters: the slot that was taken is given back.
use mathlib.Core.Path.{fun_ext}
use go_load_balance.Prelude.{
  ℕ, suc, ◌<◌, ◌^◌, ◌≡◌, ◌≢◌, ◌&&◌, true, false, refl, sym, ◌∙◌, subst, Option, Bool, false, List,
  [], String, Result, length, modify,
}
use go_load_balance.Backend.{Backend}
use go_load_balance.Affinity.{Affinity}
use go_load_balance.Chain.{Bytes, Codec}
use go_load_balance.Health.{handle, proxy_failed}
use go_load_balance.Health as H
use go_load_balance.Pool.{Pool, release}
use go_load_balance.Pool.Choose.{IsIntn, At}
use go_load_balance.Serve.{Reply, proxied, answered, aborted, serve_http}
use go_load_balance.System.{System, arrival, arrive, end, health, IsSetUp, LimitFits, Reach, later}
use go_load_balance.System.Safety.{Reach-Accounted, Reach-serve_http-total}
use go_load_balance.Exchange.{
  Request, Upstream, failed, responded, Proxying, hook, aborts, body_of, conclude, exchange,
}

-- The hook is one of the events on a backend's health.
abbrev event_of : Upstream → H.Event
event_of (failed cancelled error) = proxy_failed cancelled error
event_of (responded informational status chunks to_end) = H.responded status

hook-handle : (up : Upstream) (b : Backend) → handle (event_of up) b ≡ (hook up b).backend
unfolding hook handle
hook-handle (failed cancelled error) b = refl
hook-handle (responded informational status chunks to_end) b = refl

abbrev pub is_proxied : Reply → Bool
is_proxied (proxied i) = true
is_proxied (answered a) = false
is_proxied aborted = false

module _ (codec : Codec) (logs : Bool) (valid : Bytes → Bool) (now duration_ms : ℕ) (req : Request)
    (px : Proxying) where
  conclude-Reach :
      (start : Pool) (o : Option Affinity) (in_flight : List ℕ) (r : Pool × Reply)
      → Reach codec start (arrival r in_flight)
      → Reach codec start (record {
        pool = (conclude logs valid now duration_ms req px o r).pool;
        in_flight = in_flight;
      })
  conclude-Reach start o in_flight (p, proxied i) reached =
      let hooked = later reached (health i (event_of px.upstream)) in
      subst
        (λ (f : Backend → Backend). Reach codec start (record {
          pool = release i (record p { backends = modify p.backends i f });
          in_flight = in_flight;
        }))
        (fun_ext (hook-handle px.upstream)) (later hooked (end i [] in_flight refl))
  conclude-Reach start o in_flight (p, answered a) reached = reached
  conclude-Reach start o in_flight (p, aborted) reached = reached

  conclude-panics :
      (o : Option Affinity) (r : Pool × Reply)
      → r.1 ≢ aborted
      → (conclude logs valid now duration_ms req px o r).panics
        ≡ (is_proxied r.1 && aborts px.upstream)
  conclude-panics o (p, proxied i) total = refl
  conclude-panics o (p, answered a) total = refl
  conclude-panics o (p, aborted) total = absurd (total refl)

  -- In a reachable state of a balancer as it is set up, with a retention limit that did not wrap
  -- around to below 0, with fewer than 2 ^ 63 - 1 requests in flight and rand.Intn below its argument:
  -- a request that nothing else falls into leaves the connection counter of every backend as it was,
  -- whether it is refused, or proxied with an error, a whole response or one that breaks off. The
  -- handler panics exactly where the request was proxied and the copy of the response fails.
  pub exchange_restores :
      (parse_url : String → Result String String) (start : Pool) (s : System)
      → IsSetUp parse_url start
      → LimitFits start.affinity
      → Reach codec start s
      → (intn : ℕ → ℕ) → IsIntn intn
      → suc (length s.in_flight) < 2 ^ 63
      → (i : ℕ) (b b' : Backend) → At s.pool.backends i b
      → At (exchange logs valid now duration_ms req codec intn px s.pool).pool.backends i b'
      → (b'.active_conns ≡ b.active_conns)
        × ((exchange logs valid now duration_ms req codec intn px s.pool).panics
            ≡ (is_proxied (serve_http codec intn now (body_of req) s.pool).1 && aborts px.upstream))
  unfolding exchange
  exchange_restores parse_url start s set_up fits reached intn random small i b b' at at' =
      let arrived = later reached (arrive intn now (body_of req) random small) in
      let after =
        conclude-Reach start s.pool.affinity s.in_flight
          (serve_http codec intn now (body_of req) s.pool) arrived in
      (
        Reach-Accounted parse_url codec start _ set_up fits after i b' at'
            ∙ sym (Reach-Accounted parse_url codec start s set_up fits reached i b at),
        conclude-panics s.pool.affinity (serve_http codec intn now (body_of req) s.pool) (
            Reach-serve_http-total parse_url codec start s set_up fits reached intn now
              (body_of req) random small),
      )
