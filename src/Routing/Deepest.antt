-- ===== src/Routing/Deepest.antt =====
-- The walk ends at the longest prefix with a valid pin.
use go_load_balance.Prelude.{
  ℕ, ◌≡◌, ◌⊎◌, inl, inr, refl, sym, ap, ◌∙◌, ◌++◌, List, [], ◌∷◌, Option, none, some, ℤ, get_elem?,
  arith, Option-cases,
}
use go_load_balance.Table.{Hash, hash_eq, lookup}
use go_load_balance.Backend.{Backend}
use go_load_balance.Affinity.{Entry}
use go_load_balance.Routing.{Pin, missing, stale, unhealthy, valid, out_of_range, judge_entry}
use go_load_balance.Routing.Walk.{IsValidPin, pin_or, first_valid}

-- No hash of the list has a valid pin.
abbrev pub NoneValid : (now : ℕ) (ttl : ℤ) → List Backend → List (Hash × Entry) → List Hash → Type 0
NoneValid now ttl bs table [] = Unit {0}
NoneValid now ttl bs table (h ∷ hashes) =
    ((i : ℕ) → ¬ IsValidPin now ttl bs table h i) × NoneValid now ttl bs table hashes

-- Of the hashes, deepest first, `deepest` is the first with a valid pin, and the pin is to `i`.
pub record IsDeepestPin (now : ℕ) (ttl : ℤ) (bs : List Backend) (table : List (Hash × Entry))
    (hashes : List Hash) (i : ℕ) : Type 0 where
  pub skipped : List Hash
  pub deepest : Hash
  pub others : List Hash
  pub split : hashes ≡ skipped ++ deepest ∷ others
  pub none_deeper : NoneValid now ttl bs table skipped
  pub valid_pin : IsValidPin now ttl bs table deepest i

module _ (now : ℕ) (ttl : ℤ) (bs : List Backend) (table : List (Hash × Entry)) where
  judge_entry_sound :
      (h : Hash) (i : ℕ)
      → judge_entry now ttl bs (lookup h table) ≡ valid i
      → IsValidPin now ttl bs table h i
  judge_entry_sound h i v = elim (Option-cases (lookup h table)) [
    | inl e ↦ absurd (ground arith)
    | inr (entry, e) ↦ elim (Option-cases (get_elem? bs entry.backend)) [
      | inl out ↦ absurd (ground arith)
      | inr (b, at) ↦
          let points : entry.backend ≡ i = ground arith in
          record {
            entry = entry;
            backend = b;
            pinned = e;
            points_to = points;
            at = ap (get_elem? bs) (sym points) ∙ at;
            fresh = ground arith;
            healthy = ground arith;
          }
    ]
  ]

  judge_entry_complete :
      (h : Hash) (i : ℕ)
      → IsValidPin now ttl bs table h i
      → judge_entry now ttl bs (lookup h table) ≡ valid i
  judge_entry_complete h i v = ground (arith, ap (get_elem? bs) v.points_to)

  -- A hash whose pin is not valid is passed over.
  judge-cases :
      (h : Hash) (deeper : Option ℕ)
      → ((i : ℕ) × (judge_entry now ttl bs (lookup h table) ≡ valid i))
        ⊎ (((i : ℕ) → ¬ IsValidPin now ttl bs table h i)
            × (pin_or (judge_entry now ttl bs (lookup h table)) deeper ≡ deeper))
  judge-cases h deeper = by_pin (judge_entry now ttl bs (lookup h table)) refl
    where
      by_pin :
          (p : Pin)
          → judge_entry now ttl bs (lookup h table) ≡ p
          → ((i : ℕ) × (judge_entry now ttl bs (lookup h table) ≡ valid i))
            ⊎ (((i : ℕ) → ¬ IsValidPin now ttl bs table h i)
                × (pin_or (judge_entry now ttl bs (lookup h table)) deeper ≡ deeper))
      by_pin (valid i) e = inl (i, e)
      by_pin missing e = inr ((λ i v. ground (arith, judge_entry_complete h i v)), rw e)
      by_pin stale e = inr ((λ i v. ground (arith, judge_entry_complete h i v)), rw e)
      by_pin unhealthy e = inr ((λ i v. ground (arith, judge_entry_complete h i v)), rw e)
      by_pin out_of_range e = inr ((λ i v. ground (arith, judge_entry_complete h i v)), rw e)

  pub first_valid-some :
      (hashes : List Hash) (i : ℕ)
      → first_valid now ttl bs hashes table ≡ some i
      → IsDeepestPin now ttl bs table hashes i
  unfolding first_valid
  first_valid-some [] i e = cc
  first_valid-some (h ∷ hashes) i e = elim (judge-cases h (first_valid now ttl bs hashes table)) [
    | inl (k, found) ↦ record {
      skipped = [];
      deepest = h;
      others = hashes;
      split = refl;
      none_deeper = tt;
      valid_pin = judge_entry_sound h i (ground arith);
    }
    | inr (not_valid, passed) ↦
        let rest = first_valid-some hashes i (sym passed ∙ e) in
        record {
          skipped = h ∷ rest.skipped;
          deepest = rest.deepest;
          others = rest.others;
          split = ap (◌∷◌ h) rest.split;
          none_deeper = (not_valid, rest.none_deeper);
          valid_pin = rest.valid_pin;
        }
  ]

  pub first_valid-none :
      (hashes : List Hash)
      → first_valid now ttl bs hashes table ≡ none
      → NoneValid now ttl bs table hashes
  unfolding first_valid
  first_valid-none [] e = tt
  first_valid-none (h ∷ hashes) e = elim (judge-cases h (first_valid now ttl bs hashes table)) [
    | inl (k, found) ↦ absurd (ground arith)
    | inr (not_valid, passed) ↦ (not_valid, first_valid-none hashes (sym passed ∙ e))
  ]

  first_valid-skip :
      (skipped : List Hash) (h : Hash) (others : List Hash) (i : ℕ)
      → NoneValid now ttl bs table skipped
      → IsValidPin now ttl bs table h i
      → first_valid now ttl bs (skipped ++ h ∷ others) table ≡ some i
  unfolding first_valid
  first_valid-skip [] h others i n v =
      ap (λ q. pin_or q (first_valid now ttl bs others table)) (judge_entry_complete h i v)
  first_valid-skip (g ∷ skipped) h others i n v =
      elim (judge-cases g (first_valid now ttl bs (skipped ++ h ∷ others) table)) [
        | inl (k, found) ↦ absurd (n.0 k (judge_entry_sound g k found))
        | inr (_, passed) ↦ passed ∙ first_valid-skip skipped h others i n.1 v
      ]

  pub first_valid-deepest :
      (hashes : List Hash) (i : ℕ)
      → IsDeepestPin now ttl bs table hashes i
      → first_valid now ttl bs hashes table ≡ some i
  first_valid-deepest hashes i d =
      ap (λ hs. first_valid now ttl bs hs table) d.split
      ∙ first_valid-skip d.skipped d.deepest d.others i d.none_deeper d.valid_pin
