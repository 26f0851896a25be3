-- ===== src/Tests/Live.antt =====
-- A selection during which a request ends (lib/balancer.go).
use go_load_balance.Prelude.{
  zero, suc, ◌≢◌, refl, inl, true, [], ◌∷◌, String, pos, none, some, Option, arith, ◌+ℤ◌, ◌-ℤ◌,
  to_int,
}
use go_load_balance.Backend.{Backend, increment_conns, decrement_conns}
use go_load_balance.Pool.{Choice, panicked, picked, visit, tie_break}
use go_load_balance.Pool.Reserve.{RespectsCap}
use go_load_balance.Table.{lookup}
use go_load_balance.Affinity.{Affinity}
use go_load_balance.Routing.{warm, upsert_chain}
use go_load_balance.Live.CacheAware.{
  LiveSelectCacheAware, routed, absent, found, guarded, served, settle, tally,
}
use go_load_balance.System.Rerouted.{Settled, LiveSelectCacheAware-Settled}
use go_load_balance.Live.{
  Moment, ended, still, moved, at_end, visited, LiveSelect, selected, take_slot_of,
}
use go_load_balance.System.Accounting.{Accounted}
use go_load_balance.System.Concurrent.{LiveSelect-Inv}
use go_load_balance.System.Invariant.{Inv}
use go_load_balance.Tests.Samples.{first, three, backend, down, affinity}
use go_load_balance.Tests.Routing.{chain, limit, affinity-AffinityInv}
use go_load_balance.Tests.Pool.{first-IsIntn}

abbrev one : String → Backend
one u = record { url = u; healthy = true; active_conns = pos 1; success_streak = pos 0; epoch = 0 }

-- Both backends are at the cap of 1.
abbrev full : Moment
full = record { backends = one "http://a" ∷ one "http://b" ∷ []; in_flight = 0 ∷ 1 ∷ [] }

-- The request on the second backend has ended.
abbrev eased : Moment
eased = record {
  backends = one "http://a" ∷ decrement_conns (one "http://b") ∷ [];
  in_flight = 0 ∷ [];
}

full-Accounted : Accounted full.backends full.in_flight
full-Accounted zero b at = ground arith
full-Accounted (suc zero) b at = ground arith
full-Accounted (suc (suc i)) b at = cc

full-RespectsCap : RespectsCap (pos 1) full.backends
full-RespectsCap above zero b at = ground arith
full-RespectsCap above (suc zero) b at = ground arith
full-RespectsCap above (suc (suc i)) b at = cc

full-Inv : Inv (record {
  pool = record { backends = full.backends; max_conns = pos 1; affinity = none };
  in_flight = full.in_flight;
})
full-Inv = record {
  accounted = full-Accounted;
  small = omega arith;
  capped = full-RespectsCap;
  mode = inl refl;
}

-- The second backend is seen after its request has ended, and takes the new one.
full-LiveSelect : LiveSelect first (pos 1) full (take_slot_of (picked 1) eased) (picked 1)
unfolding visit tie_break decrement_conns to_int ◌+ℤ◌ ◌-ℤ◌
full-LiveSelect =
    selected
      (visited full full (one "http://a") (one "http://a") still refl still refl (
        visited full eased (one "http://b") (decrement_conns (one "http://b")) still refl
          (moved still (ended 1 (0 ∷ []) [] refl)) refl (at_end refl)))
      still

LiveSelect-Inv_example :
    Inv (record {
      pool = record {
        backends = (take_slot_of (picked 1) eased).backends;
        max_conns = pos 1;
        affinity = none;
      };
      in_flight = 1 ∷ 0 ∷ [];
    })
    × (picked 1 ≢ panicked)
LiveSelect-Inv_example =
    LiveSelect-Inv (pos 1) first full (take_slot_of (picked 1) eased) (picked 1) first-IsIntn
      full-Inv (omega arith) full-LiveSelect

-- Two requests on the first backend of `three`, and one on the second.
abbrev busy_three : Moment
busy_three = record { backends = three; in_flight = 0 ∷ 0 ∷ 1 ∷ [] }

-- One of the first backend's requests has ended.
abbrev eased_three : Moment
eased_three = record {
  backends = decrement_conns (backend 2) ∷ backend 1 ∷ down ∷ [];
  in_flight = 0 ∷ 1 ∷ [];
}

busy_three-Accounted : Accounted busy_three.backends busy_three.in_flight
busy_three-Accounted zero b at = ground arith
busy_three-Accounted (suc zero) b at = ground arith
busy_three-Accounted (suc (suc zero)) b at = ground arith
busy_three-Accounted (suc (suc (suc i))) b at = cc

three-RespectsCap : RespectsCap (pos 10) three
three-RespectsCap above zero b at = ground arith
three-RespectsCap above (suc zero) b at = ground arith
three-RespectsCap above (suc (suc zero)) b at = ground arith
three-RespectsCap above (suc (suc (suc i))) b at = cc

busy_three-Inv : Inv (record {
  pool = record { backends = three; max_conns = pos 10; affinity = none };
  in_flight = busy_three.in_flight;
})
busy_three-Inv = record {
  accounted = busy_three-Accounted;
  small = omega arith;
  capped = three-RespectsCap;
  mode = inl refl;
}

abbrev settled : Option (Affinity × Choice)
settled = settle 0 (upsert_chain chain 0 3 9 (tally (warm 0) affinity))

-- The request follows its pin to the first backend, after one request there has ended.
three-LiveSelectCacheAware :
    LiveSelectCacheAware first
      (pos 10)
      chain
      9
      affinity
      busy_three
      (take_slot_of (picked 0) eased_three)
      settled
unfolding visit tie_break decrement_conns increment_conns to_int ◌+ℤ◌ ◌-ℤ◌ lookup
three-LiveSelectCacheAware =
    routed busy_three busy_three eased_three
      (record { min_conns = pos 1; least = 1 ∷ []; any_healthy = true }) affinity.table (some 0)
      (warm 0)
      (visited busy_three busy_three (backend 2) (backend 2) still refl still refl (
        visited busy_three busy_three (backend 1) (backend 1) still refl still refl
          (visited busy_three busy_three down down still refl still refl (at_end refl))))
      (absent refl (
        found (record { backend = 0; epoch = 3; last_seen = 5 })
          (record {
            between = busy_three;
            first = backend 2;
            second = backend 2;
            to_first = still;
            at_first = refl;
            to_second = still;
            at_second = refl;
          })
          refl refl))
      (guarded eased_three (decrement_conns (backend 2)) (backend 1)
        (moved still (ended 0 [] (0 ∷ 1 ∷ []) refl)) refl still refl)
      (served 0 eased_three (increment_conns (decrement_conns (backend 2))) refl still still refl)

LiveSelectCacheAware-Settled_example :
    Settled (pos 10) busy_three (take_slot_of (picked 0) eased_three) settled
LiveSelectCacheAware-Settled_example =
    LiveSelectCacheAware-Settled (pos 10) first chain 9 affinity busy_three
      (take_slot_of (picked 0) eased_three) settled first-IsIntn busy_three-Inv (omega arith)
      (rw limit (omega arith)) affinity-AffinityInv three-LiveSelectCacheAware
