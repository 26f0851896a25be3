-- ===== src/System/Keeps.antt =====
-- Every step of the balancer keeps the invariant of System/Invariant.
use go_load_balance.Prelude.{
  some_value, ℕ, suc, ◌<◌, ◌^◌, ◌≡◌, none, some, inl, inr, refl, sym, subst, ◌∙◌, List, length, pos,
  ◌≤ℤ◌,
}
use go_load_balance.Affinity.{Affinity}
use go_load_balance.Pool.{Choice}
use go_load_balance.Pool.Choose.{IsIntn}
use go_load_balance.Live.{Moment}
use go_load_balance.Live.CacheAware.{LiveSelectCacheAware}
use go_load_balance.Routing.{retention_limit}
use go_load_balance.Routing.Invariant.{AffinityInv}
use go_load_balance.System.Rerouted.{LiveSelectCacheAware-Settled}
use go_load_balance.Chain.{Codec, affinity_chain}
use go_load_balance.System.{
  System, Step, arrive, arrive_live, arrive_live_cache_aware, end, health, status,
}
use go_load_balance.System.Concurrent.{LiveSelect-Inv}
use go_load_balance.System.Invariant.{Inv, reroute}
use go_load_balance.System.Steps.{serve_http-ArrivedOk, end-Inv, health-Inv, status-Inv}

live_cache_aware-Inv :
    (codec : Codec) (s : System)
    → Inv s
    → (intn : ℕ → ℕ) (now : ℕ) (body : List ℕ) (a a' : Affinity) (n : Moment) (c : Choice)
    → s.pool.affinity ≡ some a
    → IsIntn intn
    → suc (length s.in_flight) < 2 ^ 63
    → LiveSelectCacheAware intn s.pool.max_conns
        (affinity_chain codec body)
        now
        a
        (record { backends = s.pool.backends; in_flight = s.in_flight })
        n
        (some (a', c))
    → Inv (record {
      pool = record s.pool { backends = n.backends; affinity = some a' };
      in_flight = n.in_flight;
    })
live_cache_aware-Inv codec s inv intn now body a a' n c on random small select = elim inv.mode [
  | inl off ↦ cc
  | inr r ↦
      let same : r.state ≡ a = some_value (sym r.enabled ∙ on) in
      let kept = subst (AffinityInv (length s.pool.backends) s.pool.max_conns) same r.inv in
      let limit = subst (λ m. pos 0 ≤ℤ retention_limit m) r.inv.same_cap r.limit in
      let (a₁, c₁, is, inv', kept', _, fine) =
        LiveSelectCacheAware-Settled s.pool.max_conns intn (affinity_chain codec body) now a
          (record { backends = s.pool.backends; in_flight = s.in_flight }) n (some (a', c)) random
          (reroute s inv none (inl refl)) small limit kept select in
      let same' : a₁ ≡ a' = cc in
      let kept'' = subst (AffinityInv (length n.backends) s.pool.max_conns) same' kept' in
      reroute _ inv' (some a') (
        inr (record {
          state = a';
          enabled = refl;
          above_zero = r.above_zero;
          limit = subst (λ m. pos 0 ≤ℤ retention_limit m) (sym kept''.same_cap) limit;
          inv = kept'';
        }))
]

-- Every step, in either mode.
pub Step-Inv : {codec : Codec} {s t : System} → Inv s → Step codec s t → Inv t
Step-Inv {codec} {s} inv (arrive intn now body random small) =
    (serve_http-ArrivedOk codec s inv intn now body random small).0
Step-Inv {codec} {s} inv (arrive_live intn n c off random small select) =
    reroute _
      (LiveSelect-Inv s.pool.max_conns intn
        (record { backends = s.pool.backends; in_flight = s.in_flight }) n c random
        (reroute s inv none (inl refl)) small select).0
      s.pool.affinity (inl off)
Step-Inv {codec} {s} inv (arrive_live_cache_aware intn now body a a' n c on random small select) =
    live_cache_aware-Inv codec s inv intn now body a a' n c on random small select
Step-Inv {codec} {s} inv (end i before after e) = end-Inv s inv i before after e
Step-Inv {codec} {s} inv (health i e) = health-Inv s inv i e
Step-Inv {codec} {s} inv (status a e) = status-Inv s inv a e
