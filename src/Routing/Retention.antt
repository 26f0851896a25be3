-- ===== src/Routing/Retention.antt =====
-- `upsertLocked`: what the table holds after a request, and how many records are kept.
use go_load_balance.Prelude.{
  ℕ, ◌≡◌, ◌≢◌, ◌⊎◌, inl, inr, refl, ap, subst, Bool, true, false, ◌&&◌, ◌||◌, List, [], ◌∷◌, Option,
  none, some, ℤ, pos, ◌≤ℤ◌, ltb_ℤ, if◌then◌else◌, length, arith, Bool-cases,
}
use go_load_balance.Table.{
  Hash, hash_eq, nat_eq, hash_beq, hash_beq_iff, lookup, insert, delete, lookup-insert,
  lookup-delete,
}
use go_load_balance.Affinity.{Entry, RequestRecord}
use go_load_balance.Routing.{upsert_all, owns, drop_owned, retain}

abbrev pub contains : List Hash → Hash → Bool
contains [] h = false
contains (x ∷ hashes) h = hash_beq x h || contains hashes h

pub lookup-upsert_all :
    (chain : List Hash) (e : Entry) (table : List (Hash × Entry)) (h : Hash)
    → lookup h (upsert_all chain e table) ≡ (if contains chain h then some e else lookup h table)
unfolding upsert_all
lookup-upsert_all [] e table h = refl
lookup-upsert_all (x ∷ chain) e table h =
    ground (arith, lookup-upsert_all chain e (insert x e table) h, lookup-insert x h e table)

pub lookup-drop_owned :
    (idx at : ℕ) (hashes : List Hash) (table : List (Hash × Entry)) (h : Hash)
    → lookup h (drop_owned idx at hashes table)
      ≡ (if contains hashes h && owns idx at (lookup h table) then none else lookup h table)
unfolding drop_owned
lookup-drop_owned idx at [] table h = refl
lookup-drop_owned idx at (x ∷ hashes) table h = ground (
  arith,
  hash_beq_iff x h,
  λ (same : x ≡ h). ap (λ k. lookup k table) same,
  lookup-delete x h table,
  lookup-drop_owned idx at hashes table h,
  lookup-drop_owned idx at hashes (delete x table) h,
)

-- Some record of the list was made at `at` and lists the hash.
abbrev pub InRecords : List RequestRecord → Hash → ℕ → Type 0
InRecords [] h at = ⊥
InRecords (r ∷ records) h at = ((r.at ≡ at) × (contains r.hashes h ≡ true)) ⊎ InRecords records h at

module _ (limit : ℤ) (nonneg : pos 0 ≤ℤ limit) (idx : ℕ) where
  -- With a limit of at least 0 the loop ends in range, with no more records than the limit.
  pub retain-bounded :
      (records : List RequestRecord) (table : List (Hash × Entry))
      → (kept : List RequestRecord) × (table' : List (Hash × Entry)) × (retain limit idx records
            table
          ≡ some (kept, table'))
        × (pos (length kept) ≤ℤ limit)
  unfolding retain
  retain-bounded [] table = ([], table, ground arith, ground arith)
  retain-bounded (old ∷ records) table =
      elim (Bool-cases (ltb_ℤ limit (pos (length (old ∷ records))))) [
        | inl over ↦ rw over (retain-bounded records (drop_owned idx old.at old.hashes table))
        | inr fits ↦ (old ∷ records, table, rw fits, ground arith)
      ]

  -- What the loop leaves has nothing new.
  pub retain-subtable :
      (records : List RequestRecord) (table : List (Hash × Entry)) {kept : List RequestRecord}
      {table' : List (Hash × Entry)}
      → retain limit idx records table ≡ some (kept, table')
      → (h : Hash) (e : Entry) → lookup h table' ≡ some e
      → lookup h table ≡ some e
  unfolding retain
  retain-subtable [] table k h e found = ground arith
  retain-subtable (old ∷ records) table k h e found =
      elim (Bool-cases (ltb_ℤ limit (pos (length (old ∷ records))))) [
        | inl over ↦
            let dropped =
              retain-subtable records (drop_owned idx old.at old.hashes table) (rw over at k) h e
                found in
            ground (arith, lookup-drop_owned idx old.at old.hashes table h)
        | inr fits ↦ ground arith
      ]

  -- It removes a pin of another backend never.
  pub retain-others :
      (records : List RequestRecord) (table : List (Hash × Entry)) {kept : List RequestRecord}
      {table' : List (Hash × Entry)}
      → retain limit idx records table ≡ some (kept, table')
      → (h : Hash) (e : Entry) → lookup h table ≡ some e
      → e.backend ≢ idx
      → lookup h table' ≡ some e
  unfolding retain
  retain-others [] table k h e found other = ground arith
  retain-others (old ∷ records) table k h e found other =
      elim (Bool-cases (ltb_ℤ limit (pos (length (old ∷ records))))) [
        | inl over ↦
            retain-others records (drop_owned idx old.at old.hashes table) (rw over at k) h e
              (ground (arith, lookup-drop_owned idx old.at old.hashes table h)) other
        | inr fits ↦ ground arith
      ]

  -- If each pin of the backend is in a record, so is each that is left, in a record that is left.
  pub retain-InRecords :
      (records : List RequestRecord) (table : List (Hash × Entry)) {kept : List RequestRecord}
      {table' : List (Hash × Entry)}
      → retain limit idx records table ≡ some (kept, table')
      → ((h : Hash) (e : Entry)
          → lookup h table ≡ some e
          → e.backend ≡ idx
          → InRecords records h e.last_seen)
      → (h : Hash) (e : Entry) → lookup h table' ≡ some e
      → e.backend ≡ idx
      → InRecords kept h e.last_seen
  unfolding retain
  retain-InRecords [] table k listed h e found own = absurd (listed h e (ground arith) own)
  retain-InRecords (old ∷ records) table {kept} {table'} k listed h e found own =
      elim (Bool-cases (ltb_ℤ limit (pos (length (old ∷ records))))) [
        | inl over ↦
            retain-InRecords records (drop_owned idx old.at old.hashes table) (rw over at k)
              (λ g d at_g own_g. still_listed g d at_g own_g) h e found own
        | inr fits ↦
            let same : ◌≡◌ {A = Option (List RequestRecord × List (Hash × Entry))}
                (some (old ∷ records, table)) (some (kept, table')) =
              rw fits at k in
            let same_records : old ∷ records ≡ kept = cc in
            subst (λ rs. InRecords rs h e.last_seen) same_records (listed h e (ground arith) own)
      ]
    where
      still_listed :
          (g : Hash) (d : Entry)
          → lookup g (drop_owned idx old.at old.hashes table) ≡ some d
          → d.backend ≡ idx
          → InRecords records g d.last_seen
      still_listed g d at_g own_g =
          let was : lookup g table ≡ some d =
            ground (arith, lookup-drop_owned idx old.at old.hashes table g) in
          elim (listed g d was own_g) [
            | inl (at, inside) ↦
                absurd (ground (arith, lookup-drop_owned idx old.at old.hashes table g))
            | inr later ↦ later
          ]
