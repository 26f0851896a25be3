-- ===== src/Pool/Minimum.antt =====
-- What the two passes of `Scan` find, by index.
use go_load_balance.Prelude.{
  ℕ, zero, suc, ◌+◌, ◌≡◌, ◌⊎◌, inl, inr, refl, sym, ap, ◌∙◌, true, List, [], ◌∷◌, some, ℤ, ◌≤ℤ◌,
  ltb_ℤ, eqb_ℤ, if◌then◌else◌, get_elem?, arith, Bool-cases, ◌&&◌,
}
use go_load_balance.Backend.{Backend}
use go_load_balance.Pool.Scan.{is_eligible, min_over, min_over-le, at_min}

module _ (max_conns : ℤ) where
  pub min_over-le_eligible :
      (m : ℤ) (bs : List Backend) (j : ℕ) (b : Backend)
      → get_elem? bs j ≡ some b
      → is_eligible max_conns b ≡ true
      → min_over max_conns m bs ≤ℤ b.active_conns
  unfolding min_over
  min_over-le_eligible m [] j b at ok = cc
  min_over-le_eligible m (c ∷ bs) zero b at ok =
      ground (arith, min_over-le max_conns c.active_conns bs, min_over-le max_conns m bs)
  min_over-le_eligible m (c ∷ bs) (suc j) b at ok =
      min_over-le_eligible
        (if is_eligible max_conns c && ltb_ℤ c.active_conns m then c.active_conns else m) bs j b at
        ok

  pub min_over_attained :
      (m : ℤ) (bs : List Backend)
      → (min_over max_conns m bs ≡ m)
        ⊎ ((j : ℕ) × (b : Backend) × (get_elem? bs j ≡ some b)
            × (is_eligible max_conns b ≡ true)
            × (b.active_conns ≡ min_over max_conns m bs))
  unfolding min_over
  min_over_attained m [] = inl refl
  min_over_attained m (c ∷ bs) =
      elim (Bool-cases (is_eligible max_conns c && ltb_ℤ c.active_conns m)) [
        | inl better ↦ rw better (elim (min_over_attained c.active_conns bs) [
          | inl same ↦ inr (0, c, refl, ground arith, sym same)
          | inr (j, b, at, ok, e) ↦ inr (suc j, b, at, ok, e)
        ])
        | inr worse ↦ rw worse (elim (min_over_attained m bs) [
          | inl same ↦ inl same
          | inr (j, b, at, ok, e) ↦ inr (suc j, b, at, ok, e)
        ])
      ]

  -- `j`, counted from `i`, is the index of an eligible backend with `m` connections.
  abbrev FoundAt : ℤ → ℕ → List Backend → ℕ → Type 0
  FoundAt m i bs j =
      (d : ℕ) × (b : Backend) × (j ≡ i + d)
      × (get_elem? bs d ≡ some b)
      × (is_eligible max_conns b ≡ true)
      × (b.active_conns ≡ m)

  FoundAt-suc :
      (m : ℤ) (i : ℕ) (c : Backend) (bs : List Backend) (j : ℕ)
      → FoundAt m (suc i) bs j
      → FoundAt m i (c ∷ bs) j
  FoundAt-suc m i c bs j (d, b, e, at, ok, same) = (suc d, b, omega arith, at, ok, same)

  pub at_min_sound :
      (m : ℤ) (i : ℕ) (bs : List Backend) (k j : ℕ)
      → get_elem? (at_min max_conns m i bs) k ≡ some j
      → FoundAt m i bs j
  unfolding at_min
  at_min_sound m i [] k j h = cc
  at_min_sound m i (c ∷ bs) zero j h =
      elim (Bool-cases (is_eligible max_conns c && eqb_ℤ c.active_conns m)) [
        | inl here ↦
            let first : some i ≡ some j = rw here at h in
            (0, c, ground arith, refl, ground arith, ground arith)
        | inr skip ↦ FoundAt-suc m i c bs j (at_min_sound m (suc i) bs zero j (rw skip at h))
      ]
  at_min_sound m i (c ∷ bs) (suc k) j h =
      elim (Bool-cases (is_eligible max_conns c && eqb_ℤ c.active_conns m)) [
        | inl here ↦ FoundAt-suc m i c bs j (at_min_sound m (suc i) bs k j (rw here at h))
        | inr skip ↦ FoundAt-suc m i c bs j (at_min_sound m (suc i) bs (suc k) j (rw skip at h))
      ]

  pub at_min_complete :
      (m : ℤ) (i : ℕ) (bs : List Backend) (d : ℕ) (b : Backend)
      → get_elem? bs d ≡ some b
      → is_eligible max_conns b ≡ true
      → b.active_conns ≡ m
      → (k : ℕ) × (get_elem? (at_min max_conns m i bs) k ≡ some (i + d))
  unfolding at_min
  at_min_complete m i [] d b at ok e = cc
  at_min_complete m i (c ∷ bs) zero b at ok e = (0, ground arith)
  at_min_complete m i (c ∷ bs) (suc d) b at ok e =
      let (k, found) = at_min_complete m (suc i) bs d b at ok e in
      let at_d : get_elem? (at_min max_conns m (suc i) bs) k ≡ some (i + suc d) =
        found ∙ ap some (omega arith) in
      elim (Bool-cases (is_eligible max_conns c && eqb_ℤ c.active_conns m)) [
        | inl here ↦ (suc k, rw here at_d)
        | inr skip ↦ (k, rw skip at_d)
      ]
