-- ===== src/System/Rerouted.antt =====
-- Cache-aware selection among other goroutines keeps the invariants of System/Invariant and
-- Routing/Invariant.
use go_load_balance.Prelude.{
  ℕ, suc, ◌<◌, ◌^◌, ◌≡◌, ◌≢◌, ◌⊎◌, inl, inr, refl, sym, ap, subst, ◌∙◌, List, [], ◌∷◌, ◌+◌, ◌%◌,
  Option, none, some, ℤ, pos, ◌<ℤ◌, ◌≤ℤ◌, length, length-modify, lt_of_get_elem?, get_elem?_of_lt,
  arith, reverse,
}
use go_load_balance.Table.{Hash, hash_eq, lookup, delete, lookup-delete}
use go_load_balance.Affinity.{Affinity, Entry}
use go_load_balance.Backend.{Backend, increment_conns, decrement_conns}
use go_load_balance.Health.{handle}
use go_load_balance.Pool.{
  SelectError, Choice, picked, refused, panicked, ScanState, visit, tie_break,
}
use go_load_balance.Pool.Choose.{IsIntn}
use go_load_balance.Routing.{
  Route, warm, cold, overflow, failed, fault, retention_limit, with_pinned,
}
use go_load_balance.Routing.Invariant.{AffinityInv, AffinityInv-subtable, upsert_chain-AffinityInv}
use go_load_balance.Routing.Select.{AffinityInv-counted}
use go_load_balance.Live.{
  Moment, ended, changed, Moves, still, moved, LiveScan, at_end, visited, take_slot_of,
}
use go_load_balance.Live.CacheAware.{
  Look, LiveWalk, walked, absent, outside, dropped, passed, found, LiveRoute, unpinned, guarded,
  capped, faulted, winner, tally, settle, LiveFollow, served, turned_away, crashed,
  LiveSelectCacheAware, routed, out_of_range,
}
use go_load_balance.System.Concurrent.{
  Sees, at_moment, Moves-Inv, Moves-Sees, Moves-length, LiveScan-sound, tie_break-Sees, picked-Inv,
}
use go_load_balance.System.Invariant.{Inv}

Moves-trans : {n m k : Moment} → Moves n m → Moves m k → Moves n k
Moves-trans {n} {m} {k} to still = to
Moves-trans {n} {m} {k} to (moved {m = m₁} ms step) = moved (Moves-trans to ms) step

Look-Moves : {n k : Moment} {i : ℕ} → Look n i k → Moves n k
Look-Moves l = Moves-trans l.to_first l.to_second

LiveScan-Moves :
    (max_conns : ℤ) (i : ℕ) (n k : Moment) (s t : ScanState)
    → LiveScan max_conns i n s k t
    → Moves n k
LiveScan-Moves max_conns i n k s t (at_end e) = still
LiveScan-Moves max_conns i n k s t (visited m₁ m₂ b₁ b₂ to₁ at₁ to₂ at₂ rest) =
    Moves-trans (Moves-trans to₁ to₂) (
      LiveScan-Moves max_conns (suc i) m₂ k
        (visit max_conns i (record b₂ { healthy = b₁.healthy }) s) t rest)

-- No backend comes or goes.
Moves-length_backends : (n m : Moment) → Moves n m → length m.backends ≡ length n.backends
Moves-length_backends n m still = refl
Moves-length_backends n m (moved {m = k} ms (ended i before after e)) =
    length-modify k.backends i decrement_conns ∙ Moves-length_backends n k ms
Moves-length_backends n m (moved {m = k} ms (changed i e)) =
    length-modify k.backends i (handle e) ∙ Moves-length_backends n k ms

delete-subtable :
    (h g : Hash) (e : Entry) (table : List (Hash × Entry))
    → lookup g (delete h table) ≡ some e
    → lookup g table ≡ some e
delete-subtable h g e table at = ground (arith, lookup-delete h g table)

-- The walk panics on no pin in range, and only removes pins.
LiveWalk-sound :
    (now : ℕ) (ttl : ℤ) (hashes : List Hash) (table : List (Hash × Entry)) (n k : Moment)
    (r : Option (List (Hash × Entry) × Option ℕ))
    → ((h : Hash) (e : Entry) → lookup h table ≡ some e → e.backend < length n.backends)
    → LiveWalk now ttl hashes table n r k
    → Moves n k
      × (table' : List (Hash × Entry)) × (pin : Option ℕ) × (r ≡ some (table', pin))
      × ((h : Hash) (e : Entry) → lookup h table' ≡ some e → lookup h table ≡ some e)
LiveWalk-sound now ttl [] table n k r within walked = (still, table, none, refl, λ h e at. at)
LiveWalk-sound now ttl (h ∷ hashes) table n k r within (absent none_there rest) =
    LiveWalk-sound now ttl hashes table n k r within rest
LiveWalk-sound now ttl (h ∷ hashes) table n k r within (outside e at nothing) =
    let (b, there) = get_elem?_of_lt n.backends e.backend (within h e at) in
    let absurd_read : none ≡ some b = sym nothing ∙ there in cc
LiveWalk-sound now ttl (h ∷ hashes) table n k r within (dropped e m l at verdict rest) =
    let same = Moves-length_backends n m (Look-Moves l) in
    let (to, table', pin, is, sub) =
      LiveWalk-sound now ttl hashes (delete h table) m k r
        (λ g e' at'.
          subst (λ len. e'.backend < len) (sym same)
            (within g e' (delete-subtable h g e' table at')))
        rest in
    (
      Moves-trans (Look-Moves l) to,
      table',
      pin,
      is,
      λ g e' at'. delete-subtable h g e' table (sub g e' at'),
    )
LiveWalk-sound now ttl (h ∷ hashes) table n k r within (passed e m l at verdict rest) =
    let same = Moves-length_backends n m (Look-Moves l) in
    let (to, table', pin, is, sub) =
      LiveWalk-sound now ttl hashes table m k r
        (λ g e' at'. subst (λ len. e'.backend < len) (sym same) (within g e' at')) rest in
    (Moves-trans (Look-Moves l) to, table', pin, is, sub)
LiveWalk-sound now ttl (h ∷ hashes) table n k r within (found e l at verdict) =
    (Look-Moves l, table, some e.backend, refl, λ g e' at'. at')

with_pinned_picked :
    (max_conns : ℤ) (i l : ℕ) (b least : Backend)
    → (with_pinned max_conns i (picked l) (some b) (some least) ≡ overflow l)
      ⊎ ((with_pinned max_conns i (picked l) (some b) (some least) ≡ warm i)
          × (b.active_conns <ℤ max_conns))
with_pinned_picked max_conns i l b least = ground arith

with_pinned_refused :
    (max_conns : ℤ) (i : ℕ) (e : SelectError) (b : Backend)
    → (with_pinned max_conns i (refused e) (some b) none ≡ failed e)
      ⊎ ((with_pinned max_conns i (refused e) (some b) none ≡ warm i)
          × (b.active_conns <ℤ max_conns))
with_pinned_refused max_conns i e b = ground arith

module _ (max_conns : ℤ) where
  -- A route that can be followed at a moment: its backend is below the cap.
  abbrev Leads : Moment → Route → Type 0
  Leads n r = (r ≢ fault) × ((i : ℕ) → winner r ≡ some i → Sees max_conns n i)

  winner-Leads :
      (n : Moment) (r : Route) (i : ℕ) → winner r ≡ some i → Sees max_conns n i → Leads n r
  winner-Leads n r i e sees = (
    λ f. ground (arith, e, f),
    λ j e'. let same : i ≡ j = ground (arith, e, e') in subst (Sees max_conns n) same sees,
  )

  failed-Leads : (n : Moment) (e : SelectError) → Leads n (failed e)
  failed-Leads n e = (λ f. cc, λ i e'. cc)

  LiveRoute-sound :
      (least : Choice) (n k : Moment) (pin : Option ℕ) (r : Route)
      → Inv (at_moment max_conns n)
      → least ≢ panicked
      → ((l : ℕ) → least ≡ picked l → Sees max_conns n l)
      → LiveRoute max_conns least n pin r k
      → Moves n k × Leads k r
  LiveRoute-sound (picked l) n k none r inv ok sees unpinned =
      (still, winner-Leads n (cold l) l refl (sees l refl))
  LiveRoute-sound (refused e) n k none r inv ok sees unpinned = (still, failed-Leads n e)
  LiveRoute-sound panicked n k none r inv ok sees unpinned = absurd (ok refl)
  LiveRoute-sound (picked l) n k (some i) r inv ok sees (guarded m b least to at to' at') =
      let inv' = Moves-Inv max_conns n m inv to in
      (
        Moves-trans to to',
        elim (with_pinned_picked max_conns i l b least) [
          | inl over ↦ subst (Leads k) (sym over) (
              winner-Leads k (overflow l) l refl
                (Moves-Sees max_conns n k l inv (Moves-trans to to') (sees l refl)))
          | inr (stays, below) ↦ subst (Leads k) (sym stays) (
              winner-Leads k (warm i) i refl
                (Moves-Sees max_conns m k i inv' to' (b, at, λ _. below)))
        ],
      )
  LiveRoute-sound (refused e) n k (some i) r inv ok sees (capped b to at) = (
    to,
    elim (with_pinned_refused max_conns i e b) [
      | inl over ↦ subst (Leads k) (sym over) (failed-Leads k e)
      | inr (stays, below) ↦
          subst (Leads k) (sym stays) (winner-Leads k (warm i) i refl (b, at, λ _. below))
    ],
  )
  LiveRoute-sound panicked n k (some i) r inv ok sees faulted = absurd (ok refl)

  tally-AffinityInv :
      (n : ℕ) (a : Affinity) (r : Route)
      → AffinityInv n max_conns a
      → AffinityInv n max_conns (tally r a)
  tally-AffinityInv n a (warm i) inv =
      AffinityInv-counted n max_conns a ((a.warm + 1) % 2 ^ 64) a.cold a.overflow inv
  tally-AffinityInv n a (cold i) inv =
      AffinityInv-counted n max_conns a a.warm ((a.cold + 1) % 2 ^ 64) a.overflow inv
  tally-AffinityInv n a (overflow i) inv =
      AffinityInv-counted n max_conns a a.warm a.cold ((a.overflow + 1) % 2 ^ 64) inv
  tally-AffinityInv n a (failed e) inv = inv
  tally-AffinityInv n a fault inv = inv

  -- What a selection leaves: the invariants, and no panic.
  abbrev pub Settled : Moment → Moment → Option (Affinity × Choice) → Type 0
  Settled n k x =
      (a : Affinity) × (c : Choice) × (x ≡ some (a, c))
      × Inv (at_moment max_conns k)
      × AffinityInv (length k.backends) max_conns a
      × (length k.backends ≡ length n.backends)
      × (c ≢ panicked)

  LiveFollow-sound :
      (chain : List Hash) (now : ℕ) (a : Affinity) (r : Route) (n k : Moment)
      (x : Option (Affinity × Choice))
      → Inv (at_moment max_conns n)
      → suc (length n.in_flight) < 2 ^ 63
      → pos 0 ≤ℤ retention_limit max_conns
      → AffinityInv (length n.backends) max_conns a
      → Leads n r
      → LiveFollow chain now a r n k x
      → Settled n k x
  LiveFollow-sound chain now a r n k x inv small limit kept (ok, sees) (served i m b e to to' at) =
      let inv₁ =
        picked-Inv max_conns m i (Moves-Inv max_conns n m inv to)
          (omega (arith, Moves-length max_conns n m to))
          (Moves-Sees max_conns n m i inv to (sees i e)) in
      let inv₂ = Moves-Inv max_conns (take_slot_of (picked i) m) k inv₁ to' in
      let same : length k.backends ≡ length n.backends =
        Moves-length_backends (take_slot_of (picked i) m) k to'
        ∙ length-modify m.backends i increment_conns
        ∙ Moves-length_backends n m to in
      let kept' =
        tally-AffinityInv (length k.backends) a r
          (subst (λ len. AffinityInv len max_conns a) (sym same) kept) in
      let (a', done, kept'') =
        upsert_chain-AffinityInv (length k.backends) max_conns chain i b.epoch now (tally r a)
          (lt_of_get_elem? k.backends i b at)
          (subst (λ c. pos 0 ≤ℤ retention_limit c) (sym kept'.same_cap) limit) kept' in
      (a', picked i, ap (settle i) done, inv₂, kept'', same, λ p. cc)
  LiveFollow-sound chain now a (failed e) n k x inv small limit kept leads turned_away =
      (a, refused e, refl, inv, kept, refl, λ p. cc)
  LiveFollow-sound chain now a fault n k x inv small limit kept (ok, sees) crashed =
      absurd (ok refl)

  -- Let releases and changes of health fall before any read that a `selectCacheAware` makes of a
  -- backend. Suppose that each counter is the number of requests in flight on its backend and at most
  -- the cap, if that is above 0; that one more request leaves fewer than 2 ^ 63 in flight; that the
  -- retention limit is not negative; that the routing state has its invariant; and that `rand.Intn`
  -- returns a number in its range. Then all this holds after the call as well, with the slot that it
  -- took, over as many backends, and the call does not panic.
  pub LiveSelectCacheAware-Settled :
      (intn : ℕ → ℕ) (chain : List Hash) (now : ℕ) (a : Affinity) (n k : Moment)
      (x : Option (Affinity × Choice))
      → IsIntn intn
      → Inv (at_moment max_conns n)
      → suc (length n.in_flight) < 2 ^ 63
      → pos 0 ≤ℤ retention_limit max_conns
      → AffinityInv (length n.backends) max_conns a
      → LiveSelectCacheAware intn max_conns chain now a n k x
      → Settled n k x
  LiveSelectCacheAware-Settled intn chain now a n k x random inv small limit kept
        (routed m₁ m₂ m₃ t table pin r scanned walked_to routed_to followed) =
      let (inv₁, all₁, short₁) = LiveScan-sound max_conns 0 n m₁ _ t inv tt scanned in
      let to₁ = LiveScan-Moves max_conns 0 n m₁ _ t scanned in
      let same₁ = Moves-length_backends n m₁ to₁ in
      let (to₂, table', pin', is, sub) =
        LiveWalk-sound now a.ttl (reverse chain) a.table m₁ m₂ (some (table, pin))
          (λ h e at. subst (λ len. e.backend < len) (sym same₁) (kept.in_range h e at)) walked_to in
      let same_table : table' ≡ table = cc in
      let (ok, sees) = tie_break-Sees max_conns intn m₁ t.any_healthy t.least random all₁ in
      let inv₂ = Moves-Inv max_conns m₁ m₂ inv₁ to₂ in
      let (to₃, leads) =
        LiveRoute-sound (tie_break intn t.any_healthy t.least) m₂ m₃ pin r inv₂ ok
          (λ l e. Moves-Sees max_conns m₁ m₂ l inv₁ to₂ (sees l e))
          (subst (λ c. LiveRoute c (tie_break intn t.any_healthy t.least) m₂ pin r m₃) kept.same_cap
            routed_to) in
      let same = Moves-length_backends n m₃ (Moves-trans (Moves-trans to₁ to₂) to₃) in
      let kept₃ =
        subst (λ len. AffinityInv len max_conns (record a { table = table })) (sym same)
          (AffinityInv-subtable (length n.backends) max_conns a table
            (subst (λ u. (h : Hash) (e : Entry) → lookup h u ≡ some e → lookup h a.table ≡ some e)
              same_table sub)
            kept) in
      let (a', c, result, inv', kept', same', fine) =
        LiveFollow-sound chain now (record a { table = table }) r m₃ k x
          (Moves-Inv max_conns m₂ m₃ inv₂ to₃)
          (omega
            (arith, short₁, Moves-length max_conns m₁ m₂ to₂, Moves-length max_conns m₂ m₃ to₃))
          limit kept₃ leads followed in
      (a', c, result, inv', kept', same' ∙ same, fine)
  LiveSelectCacheAware-Settled intn chain now a n k x random inv small limit kept
        (out_of_range m t scanned walked_to) =
      let same₁ = Moves-length_backends n m (LiveScan-Moves max_conns 0 n m _ t scanned) in
      let (to₂, table', pin', is, sub) =
        LiveWalk-sound now a.ttl (reverse chain) a.table m k none
          (λ h e at. subst (λ len. e.backend < len) (sym same₁) (kept.in_range h e at)) walked_to in
      absurd (cc)
