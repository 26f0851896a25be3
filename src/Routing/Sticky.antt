-- ===== src/Routing/Sticky.antt =====
-- A request follows the longest prefix that has a valid pin, unless the load guard forbids it.
use go_load_balance.Prelude.{
  ℕ, ◌+◌, ◌%◌, ◌^◌, ◌≡◌, ◌≢◌, ap, ◌∙◌, true, List, Option, none, some, ℤ, ◌-ℤ◌, to_int,
  to_int_of_fits, int_laws, arith, reverse,
}
use go_load_balance.Table.{Hash, hash_eq}
use go_load_balance.Backend.{Backend}
use go_load_balance.Affinity.{Affinity, Entry}
use go_load_balance.Pool.Choose.{
  IsIntn, Chosen, least_of, all_full, all_down, least_conn_locked-Chosen,
}
use go_load_balance.Pool.Scan.{is_eligible}
use go_load_balance.Pool.{Pool, Choice, picked, panicked, least_conn_locked}
use go_load_balance.Routing.Walk.{OnlyStaleRemoved}
use go_load_balance.Routing.Deepest.{IsDeepestPin, first_valid-deepest}
use go_load_balance.Routing.Guard.{Admits, CountsNat}
use go_load_balance.Routing.Select.{
  IsReady, Outcome, served, turned_away, select_cache_aware-follow, select_cache_aware-Outcome,
  CountsNat-CountsFit,
}
use go_load_balance.Routing.{warm, route, follow, serve_on, finish, select_cache_aware}

eligible-healthy : (max_conns : ℤ) (b : Backend) → is_eligible max_conns b ≡ true → b.healthy ≡ true
eligible-healthy max_conns b h = ground arith

module _ (max_conns : ℤ) (bs : List Backend) (nat : CountsNat bs) where
  -- The guard lets a backend through that `Admits` says may serve.
  route-warm :
      (least : Choice) (i : ℕ) (b : Backend)
      → Chosen max_conns bs least
      → Admits max_conns bs i b
      → route max_conns bs least (some i) ≡ warm i
  unfolding route
  route-warm least i b (least_of {i = l} c is_least) ok =
      let near = ok.not_ahead l c is_least.at (eligible-healthy max_conns c is_least.eligible) in
      let exact : to_int (b.active_conns -ℤ c.active_conns) ≡ b.active_conns -ℤ c.active_conns =
        to_int_of_fits _ (omega (int_laws, nat i b ok.at, nat l c is_least.at)) in
      rw (ok.at, is_least.at, exact) (ground (arith, ok.below_cap))
  route-warm least i b (all_full j c at up n) ok =
      let out = n i b ok.at in absurd (ground (arith, ok.healthy, ok.below_cap))
  route-warm least i b (all_down down) ok =
      let is_down = down i b ok.at in absurd (ground (arith, ok.healthy))

pub Outcome-ne-panicked :
    {p : Pool} {a : Affinity} {r : Pool × Choice} → Outcome p a r → r.1 ≢ panicked
Outcome-ne-panicked (served b a' admits inv) h = cc
Outcome-ne-panicked (turned_away a' c inv) h = cc

-- A call that ends in `finish` and does not panic has picked the backend.
Outcome-finish :
    (p : Pool) (a : Affinity) (i : ℕ) (o : Option Affinity) {r : Pool × Choice}
    → r ≡ finish p i o
    → Outcome p a r
    → r.1 ≡ picked i
Outcome-finish p a i none e out =
    absurd (Outcome-ne-panicked out (ap (λ (x : Pool × Choice). x.1) e))
Outcome-finish p a i (some a') e out = ap (λ (x : Pool × Choice). x.1) e

module _ (chain : List Hash) (now : ℕ) (p : Pool) (a : Affinity) (intn : ℕ → ℕ)
    (ready : IsReady p a) (random : IsIntn intn) where
  served_warm :
      (i : ℕ) (b : Backend)
      → IsDeepestPin now a.ttl p.backends a.table (reverse chain) i
      → Admits p.max_conns p.backends i b
      → (table : List (Hash × Entry)) × (select_cache_aware intn now chain p
          ≡ serve_on chain now p
              (record a { table = table; warm = (a.warm + 1) % 2 ^ 64 })
              i
              (some b))
        × OnlyStaleRemoved now a.ttl p.backends a.table table
  unfolding follow
  served_warm i b deepest ok =
      let (table, selected, only) = select_cache_aware-follow chain now p a ready intn in
      let found = first_valid-deepest now a.ttl p.backends a.table (reverse chain) i deepest in
      let least =
        least_conn_locked-Chosen intn p random (CountsNat-CountsFit p.backends ready.counts) in
      (
        table,
        selected
            ∙ ap
                (λ o.
                  follow chain now p (record a { table = table })
                    (route p.max_conns p.backends (least_conn_locked intn p) o))
                found
            ∙ ap (follow chain now p (record a { table = table })) (
                route-warm p.max_conns p.backends ready.counts (least_conn_locked intn p) i b least
                  ok)
            ∙ ap (serve_on chain now p (record a { table = table; warm = (a.warm + 1) % 2 ^ 64 }) i)
                ok.at,
        only,
      )

  -- Longest prefix wins: in a pool that is ready, if the deepest hash of the chain with a valid pin
  -- is pinned to a backend that is below the cap and ahead of no healthy backend by more than a
  -- fifth of it, then the request is served there, counts as warm, and the table it starts from
  -- lacks no pin but stale ones.
  pub select_cache_aware_follows_pin :
      (i : ℕ) (b : Backend)
      → IsDeepestPin now a.ttl p.backends a.table (reverse chain) i
      → Admits p.max_conns p.backends i b
      → ((select_cache_aware intn now chain p).1 ≡ picked i)
        × ((table : List (Hash × Entry)) × (select_cache_aware intn now chain p
              ≡ serve_on chain now p
                  (record a { table = table; warm = (a.warm + 1) % 2 ^ 64 })
                  i
                  (some b))
            × OnlyStaleRemoved now a.ttl p.backends a.table table)
  select_cache_aware_follows_pin i b deepest ok =
      let (table, result, only) = served_warm i b deepest ok in
      (
        Outcome-finish p a i _ result (select_cache_aware-Outcome chain now p a ready intn random),
        (table, result, only),
      )
