-- ===== src/System/Steps.antt =====
-- The steps of the balancer, one by one: each keeps the invariant of System/Invariant.
use go_load_balance.Prelude.{
  some_value, some, pos, ◌≤ℤ◌, sym, subst, inl, inr, refl, ◌∙◌, ℕ, suc, ◌<◌, ◌^◌, ◌≡◌, inl, inr,
  sym, ap, subst, ◌++◌, List, [], ◌∷◌, ◌≤ℤ◌, pos_part, neg_part, length, modify,
  get_elem?-modify_inv, length-modify, length-append, arith,
}
use go_load_balance.Backend.{Backend, decrement_conns}
use go_load_balance.Health.{Event, handle}
use go_load_balance.Health.Neutral.{handle-active_conns}
use go_load_balance.Pool.{release}
use go_load_balance.Pool.Choose.{IsIntn, At}
use go_load_balance.Pool.Reserve.{RespectsCap}
use go_load_balance.Chain.{Codec, affinity_chain}
use go_load_balance.Routing.Select.{select_cache_aware-Outcome}
use go_load_balance.Serve.{
  Body, no_body, too_large, unreadable, complete, serve_mode, serve_http, serve_cache_aware,
}
use go_load_balance.System.Accounting.{release-Accounted, health-Accounted, release-le}
use go_load_balance.System.Invariant.{
  reroute, Inv, Routes, ArrivedOk, mode-backends, select_backend-ArrivedOk, Routes-IsReady,
  Outcome-ArrivedOk,
}
use go_load_balance.Affinity.{Affinity}
use go_load_balance.Stats.{affinity_stats_line, reset_counters}
use go_load_balance.Routing.{retention_limit}
use go_load_balance.Routing.Invariant.{AffinityInv}
use go_load_balance.Routing.Select.{AffinityInv-counted}
use go_load_balance.System.{System}

module _ (codec : Codec) (s : System) (inv : Inv s) where
  serve_cache_aware-ArrivedOk :
      (intn : ℕ → ℕ) (now : ℕ) (body : Body)
      → Routes s.pool
      → IsIntn intn
      → suc (length s.in_flight) < 2 ^ 63
      → ArrivedOk s.in_flight (serve_cache_aware codec intn now body s.pool)
  unfolding serve_cache_aware
  serve_cache_aware-ArrivedOk intn now no_body r random small =
      Outcome-ArrivedOk s inv r small
        (select_cache_aware-Outcome [] now s.pool r.state (Routes-IsReady s inv r) intn random)
  serve_cache_aware-ArrivedOk intn now too_large r random small = (inv, λ e. cc)
  serve_cache_aware-ArrivedOk intn now unreadable r random small = (inv, λ e. cc)
  serve_cache_aware-ArrivedOk intn now (complete body) r random small =
      Outcome-ArrivedOk s inv r small (
        select_cache_aware-Outcome (affinity_chain codec body) now s.pool r.state
          (Routes-IsReady s inv r) intn random)

  -- A request that arrives does not panic.
  pub serve_http-ArrivedOk :
      (intn : ℕ → ℕ) (now : ℕ) (body : Body)
      → IsIntn intn
      → suc (length s.in_flight) < 2 ^ 63
      → ArrivedOk s.in_flight (serve_http codec intn now body s.pool)
  unfolding serve_http
  serve_http-ArrivedOk intn now body random small = elim inv.mode [
    | inl off ↦
        subst (λ o. ArrivedOk s.in_flight (serve_mode codec intn now body s.pool o)) (sym off)
          (select_backend-ArrivedOk s inv intn random small)
    | inr r ↦
        subst (λ o. ArrivedOk s.in_flight (serve_mode codec intn now body s.pool o)) (sym r.enabled)
          (serve_cache_aware-ArrivedOk intn now body r random small)
  ]

module _ (s : System) (inv : Inv s) where
  modify-RespectsCap :
      (i : ℕ) (f : Backend → Backend)
      → ((b : Backend) → At s.pool.backends i b → (f b).active_conns ≤ℤ b.active_conns)
      → RespectsCap s.pool.max_conns (modify s.pool.backends i f)
  modify-RespectsCap i f le above j c at = elim (get_elem?-modify_inv s.pool.backends i j f c at) [
    | inl (same, b, was_at, changed) ↦
        let at_i : At s.pool.backends i b = subst (λ k. At s.pool.backends k b) (sym same) was_at in
        let now_le =
          subst (λ (x : Backend). x.active_conns ≤ℤ b.active_conns) (sym changed) (le b at_i) in
        let was_le = inv.capped above j b was_at in omega arith
    | inr (ne, was_at) ↦ inv.capped above j c was_at
  ]

  pub end-Inv :
      (i : ℕ) (before after : List ℕ)
      → s.in_flight ≡ before ++ i ∷ after
      → Inv (record { pool = release i s.pool; in_flight = before ++ after })
  end-Inv i before after e = record {
    accounted =
        release-Accounted s.pool.backends s.in_flight inv.accounted i before after e inv.small;
    small = omega (
      arith,
      inv.small,
      ap length e,
      length-append before (i ∷ after),
      length-append before after,
    );
    capped = modify-RespectsCap i decrement_conns (λ b at.
        release-le s.pool.backends s.in_flight inv.accounted i before after b e inv.small at);
    mode =
        mode-backends s inv (modify s.pool.backends i decrement_conns)
          (length-modify s.pool.backends i decrement_conns);
  }

  pub health-Inv :
      (i : ℕ) (e : Event)
      → Inv (record s { pool = record s.pool { backends = modify s.pool.backends i (handle e) } })
  health-Inv i e = record {
    accounted = health-Accounted s.pool.backends s.in_flight inv.accounted i e;
    small = inv.small;
    capped = modify-RespectsCap i (handle e) (λ b at.
        let kept = handle-active_conns e b in omega (arith, ap pos_part kept, ap neg_part kept));
    mode =
        mode-backends s inv (modify s.pool.backends i (handle e))
          (length-modify s.pool.backends i (handle e));
  }

  -- The routing state with its counters at 0.
  pub status-Inv :
      (a : Affinity)
      → s.pool.affinity ≡ some a
      → Inv (record s { pool = record s.pool { affinity = some (affinity_stats_line a).0 } })
  unfolding affinity_stats_line
  status-Inv a e = elim inv.mode [
    | inl off ↦ cc
    | inr r ↦
        let same : r.state ≡ a = some_value (sym r.enabled ∙ e) in
        reroute s inv (some (reset_counters a)) (
          inr (record {
            state = reset_counters a;
            enabled = refl;
            above_zero = r.above_zero;
            limit = subst (λ (x : Affinity). pos 0 ≤ℤ retention_limit x.max_conns) same r.limit;
            inv =
                AffinityInv-counted (length s.pool.backends) s.pool.max_conns a 0 0 0
                  (subst (AffinityInv (length s.pool.backends) s.pool.max_conns) same r.inv);
          }))
  ]
