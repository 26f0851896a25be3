-- ===== src/Routing.antt =====
-- Cache-aware selection (lib/cacheaware.go, `selectCacheAware` and `upsertLocked`), as a call that
-- no release and no change of health falls into (Live has those; both mutexes keep other selections
-- out). `now` and `intn` are what `a.now()` and `rand.Intn` return in it. A panic is a result of its own, and what it leaves is not modelled.
use go_load_balance.Prelude.{
  ℕ, zero, suc, ◌+◌, ◌*◌, ◌%◌, ◌^◌, Bool, true, false, not, ◌&&◌, ◌||◌, List, [], ◌∷◌, ◌++◌, Option,
  none, some, ltb, leb, ◌==◌, if◌then◌else◌, ℤ, pos, pos_part, neg_part, sub_ℕ, ◌-ℤ◌, to_int, ltb_ℤ,
  leb_ℤ, length, get_elem?, reverse,
}
use go_load_balance.Table.{Hash, hash_eq, nat_eq, lookup, insert, delete, get_records}
use go_load_balance.Backend.{Backend}
use go_load_balance.Affinity.{Affinity, Entry, RequestRecord}
use go_load_balance.Pool.{
  Pool, SelectError, Choice, picked, refused, panicked, least_conn_locked, reserve,
}
pub mod Walk
pub mod Deepest
pub mod Retention
pub mod Upsert
pub mod Guard
pub mod Invariant
pub mod Select
pub mod Admission
pub mod Sticky
pub mod Conversation

abbrev pub affinity_retention_factor : ℕ
affinity_retention_factor = 5

-- k * z
abbrev pub scale : ℕ → ℤ → ℤ
scale k z = sub_ℕ (k * pos_part z) (k * neg_part z)

-- What a round of the walk finds under a hash of the chain.
pub data Pin : Type 0 where
  missing stale unhealthy : Pin
  valid : (backend : ℕ) → Pin
  out_of_range : Pin

abbrev pub is_stale : (now : ℕ) (ttl : ℤ) → Entry → Backend → Bool
is_stale now ttl e b = ltb_ℤ ttl (pos now -ℤ pos e.last_seen) || not (e.epoch == b.epoch)

abbrev pub judge_backend : (now : ℕ) (ttl : ℤ) → Entry → Option Backend → Pin
judge_backend now ttl e none = out_of_range
judge_backend now ttl e (some b) =
    if is_stale now ttl e b then stale else if b.healthy then valid e.backend else unhealthy

abbrev pub judge_entry : (now : ℕ) (ttl : ℤ) → List Backend → Option Entry → Pin
judge_entry now ttl bs none = missing
judge_entry now ttl bs (some e) = judge_backend now ttl e (get_elem? bs e.backend)

-- The walk over the chain, deepest hash first: the table without the stale pins that it met, and
-- the backend of the first valid pin. `none` is an index out of range.
unfoldable pub walk :
    (now : ℕ) (ttl : ℤ)
    → List Backend
    → List Hash
    → List (Hash × Entry)
    → Option (List (Hash × Entry) × Option ℕ)
walk now ttl bs [] table = some (table, none)
walk now ttl bs (h ∷ hashes) table = elim (judge_entry now ttl bs (lookup h table)) [
  | missing ↦ walk now ttl bs hashes table
  | stale ↦ walk now ttl bs hashes (delete h table)
  | unhealthy ↦ walk now ttl bs hashes table
  | valid i ↦ some (table, some i)
  | out_of_range ↦ none
]

-- The way out of `selectCacheAware`.
pub data Route : Type 0 where
  warm cold overflow : ℕ → Route
  failed : SelectError → Route
  fault : Route

-- The pinned backend leads the least loaded one by more than a fifth of the cap. The source tests
-- `float64(gap) > 0.2*float64(maxConns)`. For a cap below 2 ^ 50 the rounded product lies within
-- 2 ^ -5 of a fifth of the cap, and is exact where that is whole, so the test is this one.
abbrev pub leads_too_far : (max_conns gap : ℤ) → Bool
leads_too_far max_conns gap = ltb_ℤ max_conns (scale 5 gap)

abbrev pub with_pinned :
    (max_conns : ℤ) (pinned : ℕ) → Choice → Option Backend → Option Backend → Route
with_pinned max_conns i (picked l) (some b) (some least) =
    if leb_ℤ max_conns b.active_conns
      || leads_too_far max_conns (to_int (b.active_conns -ℤ least.active_conns))
    then overflow l
    else warm i
with_pinned max_conns i (refused e) (some b) least =
    if leb_ℤ max_conns b.active_conns then failed e else warm i
with_pinned max_conns i _ _ _ = fault

abbrev pub chosen_backend : List Backend → Choice → Option Backend
chosen_backend bs (picked l) = get_elem? bs l
chosen_backend bs _ = none

abbrev pub without_pin : Choice → Route
without_pin (picked l) = cold l
without_pin (refused e) = failed e
without_pin panicked = fault

unfoldable pub route : (max_conns : ℤ) → List Backend → Choice → Option ℕ → Route
route max_conns bs least none = without_pin least
route max_conns bs least (some i) =
    with_pinned max_conns i least (get_elem? bs i) (chosen_backend bs least)

-- `a.table[h] = entry` for every hash of the chain.
unfoldable pub upsert_all : List Hash → Entry → List (Hash × Entry) → List (Hash × Entry)
upsert_all [] e table = table
upsert_all (h ∷ chain) e table = upsert_all chain e (insert h e table)

abbrev pub owns : (idx at : ℕ) → Option Entry → Bool
owns idx at none = false
owns idx at (some e) = e.backend == idx && leb e.last_seen at

-- Drops the hashes of an evicted record that the backend still owns.
unfoldable pub drop_owned : (idx at : ℕ) → List Hash → List (Hash × Entry) → List (Hash × Entry)
drop_owned idx at [] table = table
drop_owned idx at (h ∷ hashes) table =
    drop_owned idx at hashes (if owns idx at (lookup h table) then delete h table else table)

-- `for len(records) > limit`, over the records of one backend, oldest first. `none` is the read of
-- the first record of none.
unfoldable pub retain :
    (limit : ℤ) (idx : ℕ)
    → List RequestRecord
    → List (Hash × Entry)
    → Option (List RequestRecord × List (Hash × Entry))
unfolding drop_owned
retain limit idx [] table = if ltb_ℤ limit (pos 0) then none else some ([], table)
retain limit idx (old ∷ records) table =
    let rest = retain limit idx records (drop_owned idx old.at old.hashes table) in
    if ltb_ℤ limit (pos (length (old ∷ records))) then rest else some (old ∷ records, table)

abbrev pub retention_limit : ℤ → ℤ
retention_limit max_conns = to_int (scale affinity_retention_factor max_conns)

abbrev pub put_retained :
    (idx : ℕ) → Affinity → Option (List RequestRecord × List (Hash × Entry)) → Option Affinity
put_retained idx a none = none
put_retained idx a (some (records, table)) =
    some (record a { table = table; records = insert idx records a.records })

unfoldable pub upsert_locked : List Hash → (idx epoch now : ℕ) → Affinity → Option Affinity
unfolding upsert_all retain
upsert_locked chain idx epoch now a = put_retained idx a (
    retain (retention_limit a.max_conns) idx
      (get_records idx a.records ++ record { hashes = chain; at = now } ∷ [])
      (upsert_all chain (record { backend = idx; epoch = epoch; last_seen = now }) a.table))

-- No chain, no upsert.
abbrev pub upsert_chain : List Hash → (idx epoch now : ℕ) → Affinity → Option Affinity
upsert_chain [] idx epoch now a = some a
upsert_chain (h ∷ chain) idx epoch now a = upsert_locked (h ∷ chain) idx epoch now a

abbrev pub finish : Pool → ℕ → Option Affinity → Pool × Choice
finish p i none = (p, panicked)
finish p i (some a) = (record (reserve i p) { affinity = some a }, picked i)

-- Serves the request on backend `i`, with the counters as they are in `a`.
abbrev pub serve_on : List Hash → (now : ℕ) → Pool → Affinity → ℕ → Option Backend → Pool × Choice
serve_on chain now p a i none = (p, panicked)
serve_on chain now p a i (some b) = finish p i (upsert_chain chain i b.epoch now a)

unfoldable pub follow : List Hash → (now : ℕ) → Pool → Affinity → Route → Pool × Choice
unfolding upsert_locked
follow chain now p a (warm i) =
    serve_on chain now p (record a { warm = (a.warm + 1) % 2 ^ 64 }) i (get_elem? p.backends i)
follow chain now p a (cold i) =
    serve_on chain now p (record a { cold = (a.cold + 1) % 2 ^ 64 }) i (get_elem? p.backends i)
follow chain now p a (overflow i) =
    serve_on chain now p (record a { overflow = (a.overflow + 1) % 2 ^ 64 }) i
      (get_elem? p.backends i)
follow chain now p a (failed e) = (record p { affinity = some a }, refused e)
follow chain now p a fault = (p, panicked)

abbrev pub after_walk :
    (intn : ℕ → ℕ) (now : ℕ)
    → List Hash
    → Pool
    → Affinity
    → Option (List (Hash × Entry) × Option ℕ)
    → Pool × Choice
after_walk intn now chain p a none = (p, panicked)
after_walk intn now chain p a (some (table, pin)) =
    follow chain now p (record a { table = table })
      (route a.max_conns p.backends (least_conn_locked intn p) pin)

abbrev pub select_with :
    (intn : ℕ → ℕ) (now : ℕ) → List Hash → Pool → Option Affinity → Pool × Choice
select_with intn now chain p none = (p, panicked)
select_with intn now chain p (some a) =
    after_walk intn now chain p a (walk now a.ttl p.backends (reverse chain) a.table)

unfoldable pub select_cache_aware : (intn : ℕ → ℕ) (now : ℕ) → List Hash → Pool → Pool × Choice
unfolding walk route follow least_conn_locked
select_cache_aware intn now chain p = select_with intn now chain p p.affinity
