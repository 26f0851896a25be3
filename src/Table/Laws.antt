-- ===== src/Table/Laws.antt =====
-- What a read returns after a write or a deletion.
use go_load_balance.Prelude.{◌≡◌, refl, true, List, [], ◌∷◌, none, some, if◌then◌else◌, arith}
use go_load_balance.Table.Defs.{Key, ◌=?◌, lookup, insert, delete}

pub =?_refl {ℓ} : {K : Type ℓ} ⦃key : Key K⦄ (k : K) → (k =? k) ≡ true
=?_refl ⦃key⦄ k = (key.same_iff k k).1 refl

module _ {ℓ κ} {K : Type ℓ} {V : Type κ} ⦃key : Key K⦄ where
  pub lookup-insert :
      (k j : K) (v : V) (m : List (K × V))
      → lookup j (insert k v m) ≡ (if k =? j then some v else lookup j m)
  unfolding lookup insert
  lookup-insert k j v [] = refl
  lookup-insert k j v (entry ∷ m) = ground (
    arith,
    key.same_iff k j,
    key.same_iff entry.0 k,
    key.same_iff entry.0 j,
    lookup-insert k j v m,
  )

  pub lookup-delete :
      (k j : K) (m : List (K × V)) → lookup j (delete k m) ≡ (if k =? j then none else lookup j m)
  unfolding lookup delete
  lookup-delete k j [] = ground arith
  lookup-delete k j (entry ∷ m) =
      ground (
        arith,
        key.same_iff k j,
        key.same_iff entry.0 k,
        key.same_iff entry.0 j,
        lookup-delete k j m,
      )
