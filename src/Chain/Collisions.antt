-- ===== src/Chain/Collisions.antt =====
-- What an equal hash says of the units before it.
use go_load_balance.Prelude.{
  ℕ, zero, suc, ◌≡◌, ◌≢◌, ◌⊎◌, inl, inr, refl, sym, ap, ap₂, ◌∙◌, List, [], ◌∷◌, ◌++◌, Option, none,
  some, get_elem?, length, take, arith, Bool-cases,
}
use go_load_balance.Table.{Hash, hash_beq, hash_beq_iff}
use go_load_balance.Chain.Prefixes.{chain_units-take}
use go_load_balance.Chain.{Bytes, Codec, raw, affinity_max_units, chain_loop, chain_units}

-- FNV-128a returns 16 bytes.
abbrev pub SumsTo16 : Codec → Type 0
SumsTo16 codec = (bytes : Bytes) → length (codec.sum bytes) ≡ 16

-- Two different inputs with one sum.
abbrev pub Collision : Codec → Type 0
Collision codec = (x y : Bytes) × (x ≢ y) × (codec.sum x ≡ codec.sum y)

-- Lists with prefixes of one length are equal only if both parts are.
append-injective : (p q u v : Bytes) → length p ≡ length q → p ++ u ≡ q ++ v → (p ≡ q) × (u ≡ v)
append-injective [] [] u v h e = (refl, e)
append-injective [] (y ∷ q) u v h e = absurd (omega arith)
append-injective (x ∷ p) [] u v h e = absurd (omega arith)
append-injective (x ∷ p) (y ∷ q) u v h e =
    let (same_p, same_u) = append-injective p q u v (omega arith) (ground arith) in
    (ground arith, same_u)

module _ (codec : Codec) (sixteen : SumsTo16 codec) where
  -- The inputs of two equal sums, taken apart.
  sum-injective :
      (p q : Option Hash) (u v : Bytes)
      → length (raw p) ≡ length (raw q)
      → codec.sum (raw p ++ u) ≡ codec.sum (raw q ++ v)
      → ((raw p ≡ raw q) × (u ≡ v)) ⊎ Collision codec
  sum-injective p q u v lens e = elim (Bool-cases (hash_beq (raw p ++ u) (raw q ++ v))) [
    | inl same ↦ inl (
        append-injective (raw p) (raw q) u v lens ((hash_beq_iff (raw p ++ u) (raw q ++ v)).0 same))
    | inr differ ↦ inr (
      raw p ++ u,
      raw q ++ v,
      λ eq. (ground (arith, (hash_beq_iff (raw p ++ u) (raw q ++ v)).1 eq)),
      e,
    )
  ]

  chain_loop-injective :
      (p q : Option Hash) (us vs : List Bytes) (i : ℕ) (h : Hash)
      → length (raw p) ≡ length (raw q)
      → get_elem? (chain_loop codec p us) i ≡ some h
      → get_elem? (chain_loop codec q vs) i ≡ some h
      → ((raw p ≡ raw q) × (take (suc i) us ≡ take (suc i) vs)) ⊎ Collision codec
  unfolding chain_loop
  chain_loop-injective p q [] vs i h lens at at' = cc
  chain_loop-injective p q (u ∷ us) [] i h lens at at' = cc
  chain_loop-injective p q (u ∷ us) (v ∷ vs) zero h lens at at' =
      elim (sum-injective p q u v lens (ground arith)) [
        | inl (same, same_u) ↦ inl (same, ap (λ w. w ∷ []) same_u)
        | inr c ↦ inr c
      ]
  chain_loop-injective p q (u ∷ us) (v ∷ vs) (suc i) h lens at at' =
      let g = codec.sum (raw p ++ u) in
      let g' = codec.sum (raw q ++ v) in
      elim (chain_loop-injective (some g) (some g') us vs i h (sixteen _ ∙ sym (sixteen _)) at
        at') [
          | inr c ↦ inr c
          | inl (same_sum, same_rest) ↦ elim (sum-injective p q u v lens same_sum) [
            | inl (same, same_u) ↦ inl (same, ap₂ ◌∷◌ same_u same_rest)
            | inr c ↦ inr c
          ]
        ]

  -- If the chains of two unit lists have one hash at one depth `i`, the first `i + 1` units of
  -- both (of the 500 that count) are byte-identical, or two different inputs of FNV-128a with one
  -- sum are at hand. The sum is assumed to have 16 bytes.
  pub chain_units-injective :
      (us vs : List Bytes) (i : ℕ) (h : Hash)
      → get_elem? (chain_units codec us) i ≡ some h
      → get_elem? (chain_units codec vs) i ≡ some h
      → (take (suc i) (take affinity_max_units us) ≡ take (suc i) (take affinity_max_units vs))
        ⊎ Collision codec
  chain_units-injective us vs i h at at' =
      elim (chain_loop-injective none none (take affinity_max_units us) (take affinity_max_units vs)
        i h refl (ap (λ c. get_elem? c i) (sym (chain_units-take codec us)) ∙ at)
        (ap (λ c. get_elem? c i) (sym (chain_units-take codec vs)) ∙ at')) [
          | inl (_, same) ↦ inl same
          | inr c ↦ inr c
        ]

-- At two depths an equal hash says nothing: for every sum, the chain of the two units `u`, `v` ends
-- in the first hash of the chain of the one unit that holds the sum of `u` and then `v`.
pub chain_units_unframed :
    (codec : Codec) (u v : Bytes)
    → get_elem? (chain_units codec (u ∷ v ∷ [])) 1
      ≡ get_elem? (chain_units codec ((codec.sum u ++ v) ∷ [])) 0
unfolding chain_units chain_loop
chain_units_unframed codec u v = refl
