-- ===== src/System/Safety.antt =====
-- The reachable states of a balancer that `cmd/lb` set up (cmd/lb/main.go, lib/balancer.go,
-- lib/cacheaware.go).
use go_load_balance.Prelude.{
  count, ℕ, suc, ◌<◌, ◌^◌, ◌≡◌, ◌≢◌, ◌⊎◌, inl, inr, refl, sym, ap, subst, List, [], none, String,
  pos, ◌<ℤ◌, ◌≤ℤ◌, Result, ok, pos_part, neg_part, length, arith,
}
use go_load_balance.Backend.{Backend, new_backend}
use go_load_balance.Table.{lookup, get_records}
use go_load_balance.Pool.{Pool, new_pool, set_max_conns, enable_cache_aware}
use go_load_balance.Pool.Choose.{IsIntn, At}
use go_load_balance.Chain.{Codec}
use go_load_balance.Serve.{Body, aborted, serve_http}
use go_load_balance.System.Accounting.{Accounted}
use go_load_balance.System.Invariant.{Inv, Routes}
use go_load_balance.System.Keeps.{Step-Inv}
use go_load_balance.System.SetUp.{Everywhere, new_pool-Everywhere}
use go_load_balance.System.Steps.{serve_http-ArrivedOk}
use go_load_balance.System.{
  System, IsSetUp, LimitFits, unlimited, limited, cache_aware, Reach, start, later,
}

-- No backend has a connection.
abbrev AllIdle : List Backend → Type 0
AllIdle = Everywhere (λ b. b.active_conns ≡ pos 0)

module _ (parse_url : String → Result String String) where
  new_backend-idle :
      (u : String) (b : Backend) → new_backend parse_url u ≡ ok b → b.active_conns ≡ pos 0
  unfolding new_backend
  new_backend-idle u b e = ground arith

  new_pool-idle :
      (urls : List String) (p : Pool)
      → new_pool parse_url urls ≡ ok p
      → AllIdle p.backends × (p.max_conns ≡ pos 0) × (p.affinity ≡ none)
  new_pool-idle = new_pool-Everywhere (λ b. b.active_conns ≡ pos 0) parse_url new_backend-idle

idle-Inv :
    (p : Pool)
    → AllIdle p.backends
    → (p.affinity ≡ none) ⊎ Routes p
    → Inv (record { pool = p; in_flight = [] })
idle-Inv p idle mode = record {
  accounted = idle;
  small = omega arith;
  capped = λ above i b at. let e = idle i b at in omega (arith, ap pos_part e, ap neg_part e);
  mode = mode;
}

-- A pool as it is set up has no connection, no pin and no record.
IsSetUp-Inv :
    {parse_url : String → Result String String} {p : Pool}
    → IsSetUp parse_url p
    → LimitFits p.affinity
    → Inv (record { pool = p; in_flight = [] })
unfolding set_max_conns enable_cache_aware lookup get_records
IsSetUp-Inv {parse_url} (unlimited urls {p} made) fits =
    let (idle, _, off) = new_pool-idle parse_url urls p made in idle-Inv p idle (inl off)
IsSetUp-Inv {parse_url} (limited urls n p made is) fits =
    let (idle, _, off) = new_pool-idle parse_url urls p made in
    subst (λ q. Inv (record { pool = q; in_flight = [] })) (sym is)
      (idle-Inv (set_max_conns n p) idle (inl off))
IsSetUp-Inv {parse_url} (cache_aware urls ttl n p made above is) fits =
    let (idle, _, _) = new_pool-idle parse_url urls p made in
    let limit = subst (λ (q : Pool). LimitFits q.affinity) is fits in
    subst (λ q. Inv (record { pool = q; in_flight = [] })) (sym is)
      (idle-Inv (enable_cache_aware ttl n p) idle (
        inr (record {
          state = record {
            ttl = ttl;
            max_conns = n;
            table = [];
            records = [];
            warm = 0;
            cold = 0;
            overflow = 0;
          };
          enabled = refl;
          above_zero = above;
          limit = limit;
          inv = record {
            same_cap = refl;
            in_range = λ h e found. cc;
            listed = λ h e found. cc;
            bounded = λ i. limit;
          };
        })))

Reach-Inv :
    {parse_url : String → Result String String} {codec : Codec} {p : Pool} {s : System}
    → IsSetUp parse_url p
    → LimitFits p.affinity
    → Reach codec p s
    → Inv s
Reach-Inv set_up fits start = IsSetUp-Inv set_up fits
Reach-Inv set_up fits (later r step) = Step-Inv (Reach-Inv set_up fits r) step

module _ (parse_url : String → Result String String) (codec : Codec) (p : Pool) (s : System) where
  -- In every reachable state of a balancer as it is set up, with a retention limit that did not wrap
  -- around to below 0, the connection counter of each backend is the number of requests in flight on
  -- it. So a slot is released once and does not leak.
  pub Reach-Accounted :
      IsSetUp parse_url p
      → LimitFits p.affinity
      → Reach codec p s
      → Accounted s.pool.backends s.in_flight
  Reach-Accounted set_up fits r = (Reach-Inv set_up fits r).accounted

  -- In every reachable state of a balancer as it is set up, with a retention limit that did not wrap
  -- around to below 0 and with a cap above 0, no backend has more requests in flight than the cap,
  -- whatever the mode.
  pub Reach-in_flight-le_cap :
      IsSetUp parse_url p
      → LimitFits p.affinity
      → Reach codec p s
      → pos 0 <ℤ s.pool.max_conns
      → (i : ℕ) (b : Backend) → At s.pool.backends i b
      → pos (count i s.in_flight) ≤ℤ s.pool.max_conns
  Reach-in_flight-le_cap set_up fits r above i b at =
      let inv = Reach-Inv set_up fits r in
      let e = inv.accounted i b at in
      omega (arith, inv.capped above i b at, ap pos_part e, ap neg_part e)

  -- In every reachable state of a balancer as it is set up, with a retention limit that did not wrap
  -- around to below 0, no request makes the selection panic, where rand.Intn stays below its argument
  -- and fewer than 2 ^ 63 - 1 requests are in flight.
  pub Reach-serve_http-total :
      IsSetUp parse_url p
      → LimitFits p.affinity
      → Reach codec p s
      → (intn : ℕ → ℕ) (now : ℕ) (body : Body) → IsIntn intn
      → suc (length s.in_flight) < 2 ^ 63
      → (serve_http codec intn now body s.pool).1 ≢ aborted
  Reach-serve_http-total set_up fits r intn now body random small =
      (serve_http-ArrivedOk codec s (Reach-Inv set_up fits r) intn now body random small).1
