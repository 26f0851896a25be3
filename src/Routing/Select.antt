-- ===== src/Routing/Select.antt =====
-- `selectCacheAware` as a whole.
use go_load_balance.Prelude.{
  ℕ, ◌≡◌, sym, ap, subst, ◌∙◌, true, List, some, ℤ, pos, ◌≤ℤ◌, ◌<ℤ◌, arith, length, reverse,
  lt_of_get_elem?, get_elem?, ◌+◌, ◌%◌, ◌^◌,
}
use go_load_balance.Table.{Hash}
use go_load_balance.Backend.{Backend}
use go_load_balance.Affinity.{Affinity, Entry}
use go_load_balance.Pool.Choose.{IsIntn, At, CountsFit, Chosen, least_conn_locked-Chosen}
use go_load_balance.Pool.{Pool, Choice, picked, refused, SelectError, reserve, least_conn_locked}
use go_load_balance.Routing.Walk.{OnlyStaleRemoved, first_valid, walk-first_valid}
use go_load_balance.Routing.Deepest.{first_valid-some}
use go_load_balance.Routing.Guard.{
  CountsNat, Admits, RouteOk, warm_ok, cold_ok, overflow_ok, failed_ok, route-RouteOk,
}
use go_load_balance.Routing.Invariant.{
  AffinityInv, AffinityInv-subtable, OnlyStaleRemoved-subtable, upsert_chain-AffinityInv,
}
use go_load_balance.Routing.{
  Route, warm, cold, overflow, failed, fault, route, follow, serve_on, after_walk, select_with,
  select_cache_aware, retention_limit,
}

-- A pool in cache-aware mode between two calls: the cap is above 0 and five times the cap is no
-- overflow, and no counter is negative.
pub record IsReady (p : Pool) (a : Affinity) : Type 0 where
  pub enabled : p.affinity ≡ some a
  pub capped : pos 0 <ℤ p.max_conns
  pub limit : pos 0 ≤ℤ retention_limit a.max_conns
  pub counts : CountsNat p.backends
  pub inv : AffinityInv (length p.backends) p.max_conns a

pub CountsNat-CountsFit : (bs : List Backend) → CountsNat bs → CountsFit bs
CountsNat-CountsFit bs nat i b at = omega (arith, nat i b at)

-- What a call may do to the pool: reserve a slot on a backend that `Admits` it, or refuse for the
-- reason for which `leastConnLocked` would, and change nothing but the routing state.
pub data Outcome (p : Pool) (a : Affinity) : Pool × Choice → Type 0 where
  served :
      {i : ℕ} (b : Backend) (a' : Affinity)
      → Admits p.max_conns p.backends i b
      → AffinityInv (length p.backends) p.max_conns a'
      → Outcome p a (record (reserve i p) { affinity = some a' }, picked i)
  turned_away :
      {e : SelectError} (a' : Affinity)
      → Chosen p.max_conns p.backends (refused e)
      → AffinityInv (length p.backends) p.max_conns a'
      → Outcome p a (record p { affinity = some a' }, refused e)

-- The invariant does not speak of the counters.
pub AffinityInv-counted :
    (n : ℕ) (max_conns : ℤ) (a : Affinity) (w c o : ℕ)
    → AffinityInv n max_conns a
    → AffinityInv n max_conns (record a { warm = w; cold = c; overflow = o })
AffinityInv-counted n max_conns a w c o inv = record {
  same_cap = inv.same_cap;
  in_range = inv.in_range;
  listed = inv.listed;
  bounded = inv.bounded;
}

module _ (chain : List Hash) (now : ℕ) (p : Pool) (a : Affinity) (ready : IsReady p a) where
  -- Serving a request on a backend that admits it, from a routing state that keeps the invariant.
  serve_on-Outcome :
      (a₁ : Affinity) (i : ℕ) (b : Backend)
      → AffinityInv (length p.backends) p.max_conns a₁
      → Admits p.max_conns p.backends i b
      → Outcome p a (serve_on chain now p a₁ i (get_elem? p.backends i))
  serve_on-Outcome a₁ i b inv admits =
      let (a', done, inv') =
        upsert_chain-AffinityInv (length p.backends) p.max_conns chain i b.epoch now a₁
          (lt_of_get_elem? p.backends i b admits.at)
          (subst (λ m. pos 0 ≤ℤ retention_limit m) (ready.inv.same_cap ∙ sym inv.same_cap)
            ready.limit)
          inv in
      rw (admits.at, done) (served b a' admits inv')

  follow-Outcome :
      (a₁ : Affinity) (r : Route)
      → AffinityInv (length p.backends) p.max_conns a₁
      → RouteOk p.max_conns p.backends r
      → Outcome p a (follow chain now p a₁ r)
  unfolding follow
  follow-Outcome a₁ (warm i) inv (warm_ok b admits) =
      serve_on-Outcome (record a₁ { warm = (a₁.warm + 1) % 2 ^ 64 }) i b
        (AffinityInv-counted _ _ a₁ ((a₁.warm + 1) % 2 ^ 64) a₁.cold a₁.overflow inv) admits
  follow-Outcome a₁ (cold i) inv (cold_ok b admits) =
      serve_on-Outcome (record a₁ { cold = (a₁.cold + 1) % 2 ^ 64 }) i b
        (AffinityInv-counted _ _ a₁ a₁.warm ((a₁.cold + 1) % 2 ^ 64) a₁.overflow inv) admits
  follow-Outcome a₁ (overflow i) inv (overflow_ok b admits) =
      serve_on-Outcome (record a₁ { overflow = (a₁.overflow + 1) % 2 ^ 64 }) i b
        (AffinityInv-counted _ _ a₁ a₁.warm a₁.cold ((a₁.overflow + 1) % 2 ^ 64) inv) admits
  follow-Outcome a₁ (failed e) inv (failed_ok why) = turned_away a₁ why inv
  follow-Outcome a₁ fault inv x = elim x [ ]

  -- The call through its parts: the table after the walk, and the route for the deepest pin.
  pub select_cache_aware-follow :
      (intn : ℕ → ℕ)
      → (table : List (Hash × Entry)) × (select_cache_aware intn now chain p
          ≡ follow chain now p
              (record a { table = table })
              (route p.max_conns p.backends
                (least_conn_locked intn p)
                (first_valid now a.ttl p.backends (reverse chain) a.table)))
        × OnlyStaleRemoved now a.ttl p.backends a.table table
  unfolding select_cache_aware
  select_cache_aware-follow intn =
      let (table, walked, only) =
        walk-first_valid now a.ttl p.backends (reverse chain) a.table ready.inv.in_range in
      (
        table,
        ap (select_with intn now chain p) ready.enabled
            ∙ ap (after_walk intn now chain p a) walked
            ∙ ap
                (λ m.
                  follow chain now p (record a { table = table })
                    (route m p.backends (least_conn_locked intn p)
                      (first_valid now a.ttl p.backends (reverse chain) a.table)))
                ready.inv.same_cap,
        only,
      )

  -- In a pool that is ready, and whatever `rand.Intn` returns in its range, `selectCacheAware`
  -- never indexes out of range. Either it reserves one slot on a backend that is healthy, below the
  -- cap, and ahead of no healthy backend by more than a fifth of the cap; or it returns the error
  -- for which `leastConnLocked` would refuse too, and leaves every backend as it was. In both cases
  -- the routing state keeps its invariant.
  pub select_cache_aware-Outcome :
      (intn : ℕ → ℕ) → IsIntn intn → Outcome p a (select_cache_aware intn now chain p)
  select_cache_aware-Outcome intn random =
      let (table, selected, only) = select_cache_aware-follow intn in
      subst (Outcome p a) (sym selected) (
        follow-Outcome (record a { table = table }) _
          (AffinityInv-subtable _ _ a table
            (OnlyStaleRemoved-subtable now a.ttl p.backends a.table table only) ready.inv)
          (route-RouteOk p.max_conns ready.capped p.backends ready.counts (least_conn_locked intn p)
            _ (least_conn_locked-Chosen intn p random (CountsNat-CountsFit p.backends ready.counts))
            pinned_healthy))
    where
      pinned_healthy :
          (i : ℕ)
          → first_valid now a.ttl p.backends (reverse chain) a.table ≡ some i
          → (b : Backend) × At p.backends i b × (b.healthy ≡ true)
      pinned_healthy i e =
          let deepest = first_valid-some now a.ttl p.backends a.table (reverse chain) i e in
          (deepest.valid_pin.backend, deepest.valid_pin.at, deepest.valid_pin.healthy)
