-- ===== src/Routing/Invariant.antt =====
-- What holds of the routing state between any two calls.
use go_load_balance.Prelude.{
  ℕ, ◌<◌, ◌≡◌, inl, inr, refl, sym, subst, ◌∙◌, List, [], ◌∷◌, Option, some, ℤ, pos, ◌≤ℤ◌, arith,
}
use go_load_balance.Table.{Hash, hash_eq, nat_eq, lookup}
use go_load_balance.Backend.{Backend}
use go_load_balance.Affinity.{Affinity, Entry}
use go_load_balance.Routing.{upsert_locked, upsert_chain, retention_limit}
use go_load_balance.Routing.Walk.{OnlyStaleRemoved}
use go_load_balance.Routing.Upsert.{
  NoOrphans, RecordsBounded, upsert_locked-NoOrphans, upsert_locked-RecordsBounded,
  upsert_locked-frame,
}

-- Over `n` backends and at the cap `max_conns`.
pub record AffinityInv (n : ℕ) (max_conns : ℤ) (a : Affinity) : Type 0 where
  pub same_cap : a.max_conns ≡ max_conns
  pub in_range : (h : Hash) (e : Entry) → lookup h a.table ≡ some e → e.backend < n
  pub listed : NoOrphans a
  pub bounded : RecordsBounded a

-- Removing pins keeps it.
pub AffinityInv-subtable :
    (n : ℕ) (max_conns : ℤ) (a : Affinity) (table : List (Hash × Entry))
    → ((h : Hash) (e : Entry) → lookup h table ≡ some e → lookup h a.table ≡ some e)
    → AffinityInv n max_conns a
    → AffinityInv n max_conns (record a { table = table })
AffinityInv-subtable n max_conns a table sub inv = record {
  same_cap = inv.same_cap;
  in_range = λ h e found. inv.in_range h e (sub h e found);
  listed = λ h e found. inv.listed h e (sub h e found);
  bounded = inv.bounded;
}

pub OnlyStaleRemoved-subtable :
    (now : ℕ) (ttl : ℤ) (bs : List Backend) (table table' : List (Hash × Entry))
    → OnlyStaleRemoved now ttl bs table table'
    → (h : Hash) (e : Entry) → lookup h table' ≡ some e
    → lookup h table ≡ some e
OnlyStaleRemoved-subtable now ttl bs table table' only h e found = elim (only h) [
  | inl same ↦ sym same ∙ found
  | inr (gone, _) ↦ absurd (ground arith)
]

some-eq : {a a' : Affinity} {o : Option Affinity} → o ≡ some a → o ≡ some a' → a ≡ a'
some-eq e e' = cc

pub upsert_locked-AffinityInv :
    (n : ℕ) (max_conns : ℤ) (chain : List Hash) (idx epoch now : ℕ) (a : Affinity)
    → idx < n
    → pos 0 ≤ℤ retention_limit a.max_conns
    → AffinityInv n max_conns a
    → (a' : Affinity) × (upsert_locked chain idx epoch now a ≡ some a') × AffinityInv n max_conns a'
upsert_locked-AffinityInv n max_conns chain idx epoch now a lt nonneg inv =
    let (a', done, cap, pins) = upsert_locked-frame chain idx epoch now a nonneg in
    let (a₁, done₁, listed) = upsert_locked-NoOrphans chain idx epoch now a nonneg inv.listed in
    let (a₂, done₂, bounded) =
      upsert_locked-RecordsBounded chain idx epoch now a nonneg inv.bounded in
    (
      a',
      done,
      record {
        same_cap = cap ∙ inv.same_cap;
        in_range = λ h e found. elim (pins h e found) [
          | inl old ↦ inv.in_range h e old
          | inr new ↦ subst (λ (x : Entry). x.backend < n) new lt
        ];
        listed = subst NoOrphans (some-eq done₁ done) listed;
        bounded = subst RecordsBounded (some-eq done₂ done) bounded;
      },
    )

pub upsert_chain-AffinityInv :
    (n : ℕ) (max_conns : ℤ) (chain : List Hash) (idx epoch now : ℕ) (a : Affinity)
    → idx < n
    → pos 0 ≤ℤ retention_limit a.max_conns
    → AffinityInv n max_conns a
    → (a' : Affinity) × (upsert_chain chain idx epoch now a ≡ some a') × AffinityInv n max_conns a'
upsert_chain-AffinityInv n max_conns [] idx epoch now a lt nonneg inv = (a, refl, inv)
upsert_chain-AffinityInv n max_conns (h ∷ chain) idx epoch now a lt nonneg inv =
    upsert_locked-AffinityInv n max_conns (h ∷ chain) idx epoch now a lt nonneg inv
