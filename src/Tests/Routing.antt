-- ===== src/Tests/Routing.antt =====
-- Cache-aware selection over three backends.
use go_load_balance.Prelude.{
  ℕ, zero, suc, ◌≡◌, ◌↔◌, inl, refl, true, List, [], ◌∷◌, none, some, pos, ◌-ℤ◌, to_int, ◌≤ℤ◌,
  arith, reverse, ◌%◌, ◌+◌, ◌^◌,
}
use go_load_balance.Table.{Hash, lookup, insert, get_records, hash_eq, hash_beq, delete}
use go_load_balance.Backend.{Backend, increment_conns}
use go_load_balance.Affinity.{Affinity, Entry}
use go_load_balance.Pool.Choose.{At}
use go_load_balance.Pool.{picked, refused, at_capacity, least_conn_locked, scan, visit, tie_break}
use go_load_balance.Routing.Walk.{Walked, OnlyStaleRemoved, walk-first_valid}
use go_load_balance.Routing.Deepest.{IsDeepestPin}
use go_load_balance.Routing.Guard.{CountsNat, Admits}
use go_load_balance.Routing.Retention.{contains}
use go_load_balance.Routing.Upsert.{
  NoOrphans, RecordsBounded, new_entry, upsert_locked-pins, upsert_locked-RecordsBounded,
  upsert_locked-NoOrphans, upsert_locked_panics,
}
use go_load_balance.Routing.Invariant.{AffinityInv}
use go_load_balance.Routing.Select.{IsReady, Outcome, select_cache_aware-Outcome}
use go_load_balance.Routing.Admission.{select_cache_aware-refuses_iff}
use go_load_balance.Routing.Sticky.{select_cache_aware_follows_pin}
use go_load_balance.Routing.{retention_limit, scale, serve_on, upsert_locked, select_cache_aware}
use go_load_balance.Tests.Samples.{backend, three, affinity, pool, first}
use go_load_balance.Tests.Pool.{first-IsIntn}

pub three-CountsNat : CountsNat three
three-CountsNat zero b at = ground arith
three-CountsNat (suc zero) b at = ground arith
three-CountsNat (suc (suc zero)) b at = ground arith
three-CountsNat (suc (suc (suc i))) b at = absurd (cc)

pub limit : retention_limit (pos 10) ≡ pos 50
unfolding to_int
limit = refl

abbrev pin : Entry
pin = record { backend = 0; epoch = 3; last_seen = 5 }

affinity-lookup :
    (h : Hash) (e : Entry)
    → lookup h affinity.table ≡ some e
    → (hash_beq (1 ∷ []) h ≡ true) × (e ≡ pin)
unfolding lookup
affinity-lookup h e found = ground arith

affinity-NoOrphans : NoOrphans affinity
unfolding get_records lookup
affinity-NoOrphans h e found =
    let (same, is_pin) = affinity-lookup h e found in rw is_pin (inl (refl, ground arith))

affinity-RecordsBounded : RecordsBounded affinity
unfolding get_records lookup to_int
affinity-RecordsBounded zero = ground arith
affinity-RecordsBounded (suc i) = ground arith

pub affinity-AffinityInv : AffinityInv 3 (pos 10) affinity
affinity-AffinityInv = record {
  same_cap = refl;
  in_range = λ h e found. let (same, is_pin) = affinity-lookup h e found in rw is_pin (omega arith);
  listed = affinity-NoOrphans;
  bounded = affinity-RecordsBounded;
}

pub pool-IsReady : IsReady pool affinity
pool-IsReady = record {
  enabled = refl;
  capped = omega arith;
  limit = rw limit (omega arith);
  counts = three-CountsNat;
  inv = affinity-AffinityInv;
}

-- The pin of the first hash is valid, and the second hash has none.
abbrev pub chain : List Hash
chain = (1 ∷ []) ∷ (2 ∷ []) ∷ []

-- Warm: the pinned backend has 2 connections, the least loaded one 1.
warm_test : (select_cache_aware first 9 chain pool).1 ≡ picked 0
unfolding select_cache_aware scan visit tie_break lookup insert get_records to_int ◌-ℤ◌
    increment_conns
warm_test = refl

-- After the lifetime the pin is stale, and the request goes to the least loaded backend.
cold_test : (select_cache_aware first 106 chain pool).1 ≡ picked 1
unfolding select_cache_aware scan visit tie_break lookup insert get_records to_int ◌-ℤ◌
    increment_conns delete
cold_test = refl

select_cache_aware-Outcome_example : Outcome pool affinity (select_cache_aware first 9 chain pool)
select_cache_aware-Outcome_example =
    select_cache_aware-Outcome chain 9 pool affinity pool-IsReady first first-IsIntn

select_cache_aware-refuses_iff_example :
    ((select_cache_aware first 9 chain pool).1 ≡ refused at_capacity)
    ↔ (least_conn_locked first pool ≡ refused at_capacity)
select_cache_aware-refuses_iff_example =
    select_cache_aware-refuses_iff chain 9 pool affinity first at_capacity pool-IsReady first-IsIntn

chain-IsDeepestPin : IsDeepestPin 9 (pos 100) three affinity.table (reverse chain) 0
unfolding lookup ◌-ℤ◌
chain-IsDeepestPin = record {
  skipped = (2 ∷ []) ∷ [];
  deepest = 1 ∷ [];
  others = [];
  split = refl;
  none_deeper = ((λ i v. ground (arith, v.pinned)), tt);
  valid_pin = record {
    entry = pin;
    backend = backend 2;
    pinned = refl;
    points_to = refl;
    at = refl;
    fresh = refl;
    healthy = refl;
  };
}

not_far_ahead :
    (j : ℕ) (c : Backend)
    → At three j c
    → c.healthy ≡ true
    → scale 5 (pos 2 -ℤ c.active_conns) ≤ℤ pos 10
unfolding ◌-ℤ◌
not_far_ahead zero c at up = ground arith
not_far_ahead (suc zero) c at up = ground arith
not_far_ahead (suc (suc zero)) c at up = ground arith
not_far_ahead (suc (suc (suc j))) c at up = absurd (cc)

pub first-Admits : Admits (pos 10) three 0 (backend 2)
first-Admits = record {
  at = refl;
  healthy = refl;
  below_cap = omega arith;
  not_ahead = not_far_ahead;
}

select_cache_aware_follows_pin_example :
    ((select_cache_aware first 9 chain pool).1 ≡ picked 0)
    × ((table : List (Hash × Entry)) × (select_cache_aware first 9 chain pool
          ≡ serve_on chain 9 pool
              (record affinity { table = table; warm = (0 + 1) % 2 ^ 64 })
              0
              (some (backend 2)))
        × OnlyStaleRemoved 9 (pos 100) three affinity.table table)
select_cache_aware_follows_pin_example =
    select_cache_aware_follows_pin chain 9 pool affinity first pool-IsReady first-IsIntn 0
      (backend 2) chain-IsDeepestPin first-Admits

walk-first_valid_example : Walked 9 (pos 100) three (reverse chain) affinity.table
walk-first_valid_example =
    walk-first_valid 9 (pos 100) three (reverse chain) affinity.table affinity-AffinityInv.in_range

upsert_locked-pins_example :
    (a' : Affinity) × (upsert_locked chain 0 3 9 affinity ≡ some a')
    × ((h : Hash)
        → contains chain h ≡ true
        → lookup h a'.table ≡ some (new_entry chain 0 3 9 affinity))
unfolding get_records lookup
upsert_locked-pins_example =
    upsert_locked-pins chain 0 3 9 affinity (rw limit (omega arith)) (omega arith)

upsert_locked-RecordsBounded_example :
    (a' : Affinity) × (upsert_locked chain 0 3 9 affinity ≡ some a') × RecordsBounded a'
upsert_locked-RecordsBounded_example =
    upsert_locked-RecordsBounded chain 0 3 9 affinity (rw limit (omega arith))
      affinity-RecordsBounded

upsert_locked-NoOrphans_example :
    (a' : Affinity) × (upsert_locked chain 0 3 9 affinity ≡ some a') × NoOrphans a'
upsert_locked-NoOrphans_example =
    upsert_locked-NoOrphans chain 0 3 9 affinity (rw limit (omega arith)) affinity-NoOrphans

-- A cap of 2 * 10 ^ 18.
abbrev huge : Affinity
huge = record affinity { max_conns = pos 2000000000000000000 }

upsert_locked_panics_example : upsert_locked chain 0 3 9 huge ≡ none
unfolding to_int
upsert_locked_panics_example = upsert_locked_panics chain 0 3 9 huge (omega arith)
