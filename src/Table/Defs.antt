-- ===== src/Table/Defs.antt =====
-- The operations of a map.
use go_load_balance.Prelude.{
  ℕ, ◌≡◌, refl, ◌↔◌, Bool, true, false, ◌&&◌, List, [], ◌∷◌, Option, none, some, ◌==◌, ==_iff,
  if◌then◌else◌, arith,
}

-- What a type of keys brings: its Boolean equality, which is correct.
pub record Key {ℓ} (K : Type ℓ) : Type ℓ where
  pub same : K → K → Bool
  pub same_iff : (j k : K) → (same j k ≡ true) ↔ (j ≡ k)

infix 50 ◌=?◌
abbrev pub ◌=?◌ {ℓ} : {K : Type ℓ} ⦃key : Key K⦄ → K → K → Bool
◌=?◌ ⦃key⦄ = key.same

abbrev nat_beq : ℕ → ℕ → Bool
nat_beq a b = a == b

instance abbrev pub nat_eq : Key ℕ
nat_eq = record { same = nat_beq; same_iff = ==_iff }

-- `[16]byte`, as the list of its bytes.
abbrev pub Hash : Type 0
Hash = List ℕ

abbrev pub hash_beq : Hash → Hash → Bool
hash_beq [] [] = true
hash_beq [] (y ∷ ys) = false
hash_beq (x ∷ xs) [] = false
hash_beq (x ∷ xs) (y ∷ ys) = (x == y) && hash_beq xs ys

hash_beq_sound : (xs ys : Hash) → hash_beq xs ys ≡ true → xs ≡ ys
hash_beq_sound [] [] h = refl
hash_beq_sound [] (y ∷ ys) h = cc
hash_beq_sound (x ∷ xs) [] h = cc
hash_beq_sound (x ∷ xs) (y ∷ ys) h = ground (arith, hash_beq_sound xs ys)

hash_beq_refl : (xs : Hash) → hash_beq xs xs ≡ true
hash_beq_refl [] = refl
hash_beq_refl (x ∷ xs) = ground (arith, hash_beq_refl xs)

pub hash_beq_iff : (xs ys : Hash) → (hash_beq xs ys ≡ true) ↔ (xs ≡ ys)
hash_beq_iff xs ys = (hash_beq_sound xs ys, λ e. rw e (hash_beq_refl ys))

instance abbrev pub hash_eq : Key Hash
hash_eq = record { same = hash_beq; same_iff = hash_beq_iff }

module _ {ℓ κ} {K : Type ℓ} {V : Type κ} ⦃key : Key K⦄ where
  -- `table[k]`
  unfoldable pub lookup : K → List (K × V) → Option V
  lookup k [] = none
  lookup k (entry ∷ rest) = if entry.0 =? k then some entry.1 else lookup k rest

  -- `table[k] = v`
  unfoldable pub insert : K → V → List (K × V) → List (K × V)
  insert k v [] = (k, v) ∷ []
  insert k v (entry ∷ rest) =
      let after = insert k v rest in if entry.0 =? k then (k, v) ∷ rest else entry ∷ after

  -- `delete(table, k)`
  unfoldable pub delete : K → List (K × V) → List (K × V)
  delete k [] = []
  delete k (entry ∷ rest) =
      let after = delete k rest in if entry.0 =? k then after else entry ∷ after

-- A missing slice reads as the empty one.
unfoldable pub get_records {ℓ κ} :
    {K : Type ℓ} {V : Type κ} ⦃key : Key K⦄ → K → List (K × List V) → List V
unfolding lookup
get_records k m = elim (lookup k m) [ none ↦ [] | some vs ↦ vs ]
