-- ===== src/Routing/Upsert.antt =====
-- `upsertLocked` as a whole: the request's pins, the bound on the records, and no orphan pins.
use go_load_balance.Prelude.{
  ℕ, ◌<◌, ◌≡◌, ◌⊎◌, inl, inr, refl, sym, ap, subst, ◌++◌, true, false, List, [], ◌∷◌, none, some, ℤ,
  pos, ◌≤ℤ◌, ◌<ℤ◌, ltb_ℤ, if◌then◌else◌, length, ◌==◌, arith, Bool-cases,
}
use go_load_balance.Table.{Hash, hash_eq, nat_eq, lookup, insert, lookup-insert, get_records}
use go_load_balance.Affinity.{Affinity, Entry, RequestRecord}
use go_load_balance.Routing.{
  upsert_all, drop_owned, retain, put_retained, upsert_locked, retention_limit,
}
use go_load_balance.Routing.Retention.{
  contains, lookup-upsert_all, lookup-drop_owned, InRecords, retain-bounded, retain-subtable,
  retain-InRecords,
}

-- Each pin stems from a record of its backend that was made when the pin was last seen.
abbrev pub NoOrphans : Affinity → Type 0
NoOrphans a =
    (h : Hash) (e : Entry)
    → lookup h a.table ≡ some e
    → InRecords (get_records e.backend a.records) h e.last_seen

-- No backend has more records than the limit.
abbrev pub RecordsBounded : Affinity → Type 0
RecordsBounded a = (i : ℕ) → pos (length (get_records i a.records)) ≤ℤ retention_limit a.max_conns

-- Each record of the list is from before `now`.
abbrev pub Older : ℕ → List RequestRecord → Type 0
Older now [] = Unit {0}
Older now (r ∷ records) = (r.at < now) × Older now records

get_records-insert :
    (i j : ℕ) (rs : List RequestRecord) (m : List (ℕ × List RequestRecord))
    → get_records j (insert i rs m) ≡ (if i == j then rs else get_records j m)
unfolding get_records
get_records-insert i j rs m = ground (arith, lookup-insert i j rs m)

InRecords-append_left :
    (rs ss : List RequestRecord) (h : Hash) (at : ℕ) → InRecords rs h at → InRecords (rs ++ ss) h at
InRecords-append_left [] ss h at i = elim i [ ]
InRecords-append_left (r ∷ rs) ss h at (inl here) = inl here
InRecords-append_left (r ∷ rs) ss h at (inr later) = inr (InRecords-append_left rs ss h at later)

InRecords-append_right :
    (rs ss : List RequestRecord) (h : Hash) (at : ℕ) → InRecords ss h at → InRecords (rs ++ ss) h at
InRecords-append_right [] ss h at i = i
InRecords-append_right (r ∷ rs) ss h at i = inr (InRecords-append_right rs ss h at i)

module _ (limit : ℤ) (idx : ℕ) (h : Hash) (e : Entry) where
  -- A pin newer than all records but the last outlives them, if one record may stay.
  retain-keeps_new :
      (records : List RequestRecord) (new : RequestRecord) (table : List (Hash × Entry))
      {kept : List RequestRecord} {table' : List (Hash × Entry)}
      → pos 1 ≤ℤ limit
      → Older e.last_seen records
      → lookup h table ≡ some e
      → retain limit idx (records ++ new ∷ []) table ≡ some (kept, table')
      → lookup h table' ≡ some e
  unfolding retain
  retain-keeps_new [] new table one older found k = ground arith
  retain-keeps_new (old ∷ records) new table one older found k =
      elim (Bool-cases (ltb_ℤ limit (pos (length (old ∷ (records ++ new ∷ [])))))) [
        | inl over ↦
            retain-keeps_new records new (drop_owned idx old.at old.hashes table) one older.1
              (ground (arith, lookup-drop_owned idx old.at old.hashes table h)) (rw over at k)
        | inr fits ↦ ground arith
      ]

module _ (chain : List Hash) (idx epoch now : ℕ) (a : Affinity) where
  abbrev new_record : RequestRecord
  new_record = record { hashes = chain; at = now }

  abbrev pub new_entry : Entry
  new_entry = record { backend = idx; epoch = epoch; last_seen = now }

  -- `upsertLocked` through the outcome of its loop.
  abbrev Upserted : Type 0
  Upserted =
      (kept : List RequestRecord) × (table : List (Hash × Entry)) × (retain
          (retention_limit a.max_conns) idx (get_records idx a.records ++ new_record ∷ [])
          (upsert_all chain new_entry a.table)
        ≡ some (kept, table))
      × (pos (length kept) ≤ℤ retention_limit a.max_conns)
      × (upsert_locked chain idx epoch now a
          ≡ some (record a { table = table; records = insert idx kept a.records }))

  upsert_locked-Upserted : pos 0 ≤ℤ retention_limit a.max_conns → Upserted
  unfolding upsert_locked
  upsert_locked-Upserted nonneg =
      let (kept, table, done, bounded) =
        retain-bounded (retention_limit a.max_conns) nonneg idx
          (get_records idx a.records ++ new_record ∷ []) (upsert_all chain new_entry a.table) in
      (kept, table, done, bounded, ap (put_retained idx a) done)

  -- Pins follow reality: with room for one record, and if each record of the backend is from before
  -- `now`, `upsertLocked` ends in range, and every hash of the chain is then pinned to the backend
  -- that serves the request, with its epoch, as last seen now.
  pub upsert_locked-pins :
      pos 1 ≤ℤ retention_limit a.max_conns
      → Older now (get_records idx a.records)
      → (a' : Affinity) × (upsert_locked chain idx epoch now a ≡ some a')
        × ((h : Hash) → contains chain h ≡ true → lookup h a'.table ≡ some new_entry)
  upsert_locked-pins one older =
      let (kept, table, done, _, upserted) = upsert_locked-Upserted (omega arith) in
      (
        record a { table = table; records = insert idx kept a.records },
        upserted,
        λ h inside.
            retain-keeps_new (retention_limit a.max_conns) idx h new_entry
              (get_records idx a.records) new_record (upsert_all chain new_entry a.table) one older
              (ground (arith, lookup-upsert_all chain new_entry a.table h)) done,
      )

  -- With a limit of at least 0 `upsertLocked` ends in range and keeps the number of records of
  -- every backend within the limit.
  pub upsert_locked-RecordsBounded :
      pos 0 ≤ℤ retention_limit a.max_conns
      → RecordsBounded a
      → (a' : Affinity) × (upsert_locked chain idx epoch now a ≡ some a') × RecordsBounded a'
  upsert_locked-RecordsBounded nonneg bounded =
      let (kept, table, _, few, upserted) = upsert_locked-Upserted nonneg in
      (
        record a { table = table; records = insert idx kept a.records },
        upserted,
        λ i. ground (arith, bounded i, get_records-insert idx i kept a.records),
      )

  -- The table stays bounded: with a limit of at least 0 `upsertLocked` ends in range, and if each
  -- pin stems from a record of its backend before, then so it does after, so that the table holds
  -- no hash that the kept records do not list.
  pub upsert_locked-NoOrphans :
      pos 0 ≤ℤ retention_limit a.max_conns
      → NoOrphans a
      → (a' : Affinity) × (upsert_locked chain idx epoch now a ≡ some a') × NoOrphans a'
  upsert_locked-NoOrphans nonneg listed =
      let (kept, table, done, _, upserted) = upsert_locked-Upserted nonneg in
      (
        record a { table = table; records = insert idx kept a.records },
        upserted,
        λ h e found. by_backend kept table done h e found (Bool-cases (idx == e.backend)),
      )
    where
      table₀ : List (Hash × Entry)
      table₀ = upsert_all chain new_entry a.table

      -- before the loop each pin of the backend is in a record
      listed_before :
          (h : Hash) (e : Entry)
          → lookup h table₀ ≡ some e
          → e.backend ≡ idx
          → InRecords (get_records idx a.records ++ new_record ∷ []) h e.last_seen
      listed_before h e found own = elim (Bool-cases (contains chain h)) [
        | inl inside ↦
            let fresh : new_entry ≡ e =
              ground (arith, lookup-upsert_all chain new_entry a.table h) in
            InRecords-append_right (get_records idx a.records) (new_record ∷ []) h e.last_seen
              (inl (ap (λ (x : Entry). x.last_seen) fresh, inside))
        | inr outside ↦
            let old : lookup h a.table ≡ some e =
              ground (arith, lookup-upsert_all chain new_entry a.table h) in
            InRecords-append_left (get_records idx a.records) (new_record ∷ []) h e.last_seen
              (subst (λ i. InRecords (get_records i a.records) h e.last_seen) own (listed h e old))
      ]

      by_backend :
          (kept : List RequestRecord) (table : List (Hash × Entry))
          → retain
              (retention_limit a.max_conns)
              idx
              (get_records idx a.records ++ new_record ∷ [])
              table₀
            ≡ some (kept, table)
          → (h : Hash) (e : Entry) → lookup h table ≡ some e
          → ((idx == e.backend) ≡ true) ⊎ ((idx == e.backend) ≡ false)
          → InRecords (get_records e.backend (insert idx kept a.records)) h e.last_seen
      by_backend kept table done h e found (inl own) =
          let here : get_records e.backend (insert idx kept a.records) ≡ kept =
            ground (arith, get_records-insert idx e.backend kept a.records) in
          subst (λ rs. InRecords rs h e.last_seen) (sym here)
            (retain-InRecords (retention_limit a.max_conns) nonneg idx _ table₀ done listed_before h
              e found (ground arith))
      by_backend kept table done h e found (inr other) =
          let elsewhere : get_records e.backend (insert idx kept a.records)
              ≡ get_records e.backend a.records =
            ground (arith, get_records-insert idx e.backend kept a.records) in
          let was : lookup h table₀ ≡ some e =
            retain-subtable (retention_limit a.max_conns) nonneg idx _ table₀ done h e found in
          let old : lookup h a.table ≡ some e =
            ground (arith, lookup-upsert_all chain new_entry a.table h) in
          subst (λ rs. InRecords rs h e.last_seen) (sym elsewhere) (listed h e old)

  -- `upsertLocked` keeps the settings, and adds no pin but the request's.
  pub upsert_locked-frame :
      pos 0 ≤ℤ retention_limit a.max_conns
      → (a' : Affinity) × (upsert_locked chain idx epoch now a ≡ some a')
        × (a'.max_conns ≡ a.max_conns)
        × ((h : Hash) (e : Entry)
            → lookup h a'.table ≡ some e
            → (lookup h a.table ≡ some e) ⊎ (new_entry ≡ e))
  upsert_locked-frame nonneg =
      let (kept, table, done, _, upserted) = upsert_locked-Upserted nonneg in
      (
        record a { table = table; records = insert idx kept a.records },
        upserted,
        refl,
        λ h e found. old_or_new h e (
            retain-subtable (retention_limit a.max_conns) nonneg idx _
              (upsert_all chain new_entry a.table) done h e found),
      )
    where
      old_or_new :
          (h : Hash) (e : Entry)
          → lookup h (upsert_all chain new_entry a.table) ≡ some e
          → (lookup h a.table ≡ some e) ⊎ (new_entry ≡ e)
      old_or_new h e found = elim (Bool-cases (contains chain h)) [
        | inl inside ↦ inr (ground (arith, lookup-upsert_all chain new_entry a.table h))
        | inr outside ↦ inl (ground (arith, lookup-upsert_all chain new_entry a.table h))
      ]

retain_negative :
    (limit : ℤ) (idx : ℕ) (records : List RequestRecord) (table : List (Hash × Entry))
    → limit <ℤ pos 0
    → retain limit idx records table ≡ none
unfolding retain
retain_negative limit idx [] table h = ground arith
retain_negative limit idx (old ∷ records) table h =
    ground (arith, retain_negative limit idx records (drop_owned idx old.at old.hashes table))

-- If five times the cap overflows an `int` to a negative number, every `upsertLocked` reads the
-- first record of an empty slice.
pub upsert_locked_panics :
    (chain : List Hash) (idx epoch now : ℕ) (a : Affinity)
    → retention_limit a.max_conns <ℤ pos 0
    → upsert_locked chain idx epoch now a ≡ none
unfolding upsert_locked
upsert_locked_panics chain idx epoch now a h =
    ap (put_retained idx a) (retain_negative (retention_limit a.max_conns) idx _ _ h)
