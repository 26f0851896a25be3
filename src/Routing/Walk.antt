-- ===== src/Routing/Walk.antt =====
-- The walk finds the longest prefix with a valid pin, and removes stale pins only.
use go_load_balance.Prelude.{
  ℕ, ◌<◌, ◌≡◌, ◌≢◌, ◌⊎◌, inl, inr, refl, sym, ap, ◌∙◌, Bool, true, false, List, [], ◌∷◌, Option,
  none, some, ℤ, if◌then◌else◌, length, get_elem?_of_lt, arith, Bool-cases,
}
use go_load_balance.Table.{Hash, hash_eq, hash_beq, hash_beq_iff, lookup, delete, lookup-delete}
use go_load_balance.Backend.{Backend}
use go_load_balance.Affinity.{Entry}
use go_load_balance.Pool.Choose.{At}
use go_load_balance.Routing.{
  Pin, missing, stale, unhealthy, valid, out_of_range, is_stale, judge_entry, walk,
}

-- Every pin names a backend of the pool.
abbrev pub PinsInRange : List Backend → List (Hash × Entry) → Type 0
PinsInRange bs table = (h : Hash) (e : Entry) → lookup h table ≡ some e → e.backend < length bs

-- A pin that is neither expired nor from before an outage, on a healthy backend.
pub record IsValidPin (now : ℕ) (ttl : ℤ) (bs : List Backend) (table : List (Hash × Entry))
    (h : Hash) (i : ℕ) : Type 0 where
  pub entry : Entry
  pub backend : Backend
  pub pinned : lookup h table ≡ some entry
  pub points_to : entry.backend ≡ i
  pub at : At bs i backend
  pub fresh : is_stale now ttl entry backend ≡ false
  pub healthy : backend.healthy ≡ true

abbrev pub pin_or : Pin → Option ℕ → Option ℕ
pin_or (valid i) deeper = some i
pin_or missing deeper = deeper
pin_or stale deeper = deeper
pin_or unhealthy deeper = deeper
pin_or out_of_range deeper = deeper

-- A pin that was removed because it was stale would have been passed over.
pin_or-removed :
    (removed : Bool) (p p' : Pin) (deeper : Option ℕ)
    → (removed ≡ true → p ≡ stale)
    → p' ≡ (if removed then missing else p)
    → pin_or p' deeper ≡ pin_or p deeper
pin_or-removed true p p' deeper s e = ground (arith, s refl)
pin_or-removed false p p' deeper s e = ground arith

module _ (now : ℕ) (ttl : ℤ) (bs : List Backend) where
  -- The backend of the first valid pin, in a table that nothing is removed from.
  unfoldable pub first_valid : List Hash → List (Hash × Entry) → Option ℕ
  first_valid [] table = none
  first_valid (h ∷ hashes) table =
      pin_or (judge_entry now ttl bs (lookup h table)) (first_valid hashes table)

  -- Each hash reads as before, or its pin was stale and is gone.
  abbrev pub OnlyStaleRemoved : List (Hash × Entry) → List (Hash × Entry) → Type 0
  OnlyStaleRemoved table table' =
      (h : Hash)
      → (lookup h table' ≡ lookup h table)
        ⊎ ((lookup h table' ≡ none) × (judge_entry now ttl bs (lookup h table) ≡ stale))

  Pin-cases :
      (o : Option Entry)
      → ((e : Entry) → o ≡ some e → e.backend < length bs)
      → judge_entry now ttl bs o ≢ out_of_range
  Pin-cases none h = cc
  Pin-cases (some e) h = let (b, at) = get_elem?_of_lt bs e.backend (h e refl) in ground arith

  judge_entry-delete :
      (h j : Hash) (table : List (Hash × Entry))
      → judge_entry now ttl bs (lookup j (delete h table))
        ≡ (if hash_beq h j then missing else judge_entry now ttl bs (lookup j table))
  judge_entry-delete h j table = rw (lookup-delete h j table) (ground arith)

  PinsInRange-delete :
      (h : Hash) (table : List (Hash × Entry))
      → PinsInRange bs table
      → PinsInRange bs (delete h table)
  PinsInRange-delete h table range j e found = range j e (ground (arith, lookup-delete h j table))

  OnlyStaleRemoved-delete :
      (h : Hash) (table table' : List (Hash × Entry))
      → judge_entry now ttl bs (lookup h table) ≡ stale
      → OnlyStaleRemoved (delete h table) table'
      → OnlyStaleRemoved table table'
  OnlyStaleRemoved-delete h table table' s rest j =
      let read = lookup-delete h j table in
      elim (Bool-cases (hash_beq h j)) [
        | inl same ↦
            let gone : lookup j (delete h table) ≡ none = ground arith in
            inr (
              elim (rest j) [ inl e ↦ e ∙ gone | inr (e, _) ↦ e ],
              ap (λ k. judge_entry now ttl bs (lookup k table)) (sym ((hash_beq_iff h j).0 same))
                  ∙ s,
            )
        | inr other ↦
            let kept : lookup j (delete h table) ≡ lookup j table = ground arith in
            elim (rest j) [
              | inl e ↦ inl (e ∙ kept)
              | inr (e, was_stale) ↦ inr (e, ap (judge_entry now ttl bs) (sym kept) ∙ was_stale)
            ]
      ]

  first_valid-delete :
      (h : Hash) (hashes : List Hash) (table : List (Hash × Entry))
      → judge_entry now ttl bs (lookup h table) ≡ stale
      → first_valid hashes (delete h table) ≡ first_valid hashes table
  unfolding first_valid
  first_valid-delete h [] table s = refl
  first_valid-delete h (j ∷ hashes) table s =
      ap (pin_or _) (first_valid-delete h hashes table s)
      ∙ pin_or-removed (hash_beq h j) (judge_entry now ttl bs (lookup j table)) _
          (first_valid hashes table)
          (λ same.
            ap (λ k. judge_entry now ttl bs (lookup k table)) (sym ((hash_beq_iff h j).0 same)) ∙ s)
          (judge_entry-delete h j table)

  -- The walk ends in range: with the first valid pin, and a table without some stale pins.
  abbrev pub Walked : List Hash → List (Hash × Entry) → Type 0
  Walked hashes table =
      (table' : List (Hash × Entry)) × (walk now ttl bs hashes table
        ≡ some (table', first_valid hashes table))
      × OnlyStaleRemoved table table'

  -- The walk deletes as it goes, and finds the same: in a table whose pins are all in range it never
  -- indexes out of range, it ends at the first valid pin that the table had at its start, and of
  -- the table it leaves every hash reads as before, or its pin was stale and is gone.
  pub walk-first_valid :
      (hashes : List Hash) (table : List (Hash × Entry))
      → PinsInRange bs table
      → Walked hashes table
  unfolding walk first_valid
  walk-first_valid [] table range = (table, refl, λ h. inl refl)
  walk-first_valid (h ∷ hashes) table range =
      by_pin (judge_entry now ttl bs (lookup h table)) refl (walk-first_valid hashes table range)
        (walk-first_valid hashes (delete h table) (PinsInRange-delete h table range))
    where
      by_pin :
          (p : Pin)
          → judge_entry now ttl bs (lookup h table) ≡ p
          → Walked hashes table
          → Walked hashes (delete h table)
          → Walked (h ∷ hashes) table
      by_pin missing e (table', walked, removed) drop = (table', ground arith, removed)
      by_pin stale e keep (table', walked, removed) = (
        table',
        ground (arith, first_valid-delete h hashes table e),
        OnlyStaleRemoved-delete h table table' e removed,
      )
      by_pin unhealthy e (table', walked, removed) drop = (table', ground arith, removed)
      by_pin (valid i) e keep drop = (table, ground arith, λ j. inl refl)
      by_pin out_of_range e keep drop = absurd (Pin-cases (lookup h table) (range h) e)
