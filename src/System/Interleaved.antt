-- ===== src/System/Interleaved.antt =====
-- The events that fall within a selection are all that happens to a backend's health there.
use go_load_balance.Prelude.{ℕ, List, [], ◌++◌, Option, ℤ}
use go_load_balance.Affinity.{Affinity, Entry}
use go_load_balance.Health.{Event}
use go_load_balance.Pool.{Choice, picked, refused, panicked, ScanState}
use go_load_balance.Routing.{Route}
use go_load_balance.Table.{Hash}
use go_load_balance.Live.{
  Moment, Move, ended, changed, Moves, still, moved, LiveScan, at_end, visited, LiveSelect,
  selected, take_slot_of,
}
use go_load_balance.Live.CacheAware.{
  Look, LiveWalk, walked, absent, outside, dropped, passed, found, LiveRoute, unpinned, guarded,
  capped, faulted, LiveFollow, served, turned_away, crashed, LiveSelectCacheAware, routed,
  out_of_range,
}
use go_load_balance.System.History.{
  move_events, moves_events, scan_events, look_events, walk_events, route_events, follow_events,
  select_events, select_cache_aware_events,
}
use go_load_balance.System.Tracks.{
  Tracks, Tracks-refl, Tracks-trans, modify-Tracks, handle-Tracks, increment-SameHealth,
  decrement-SameHealth,
}
use go_load_balance.Backend.{increment_conns, decrement_conns}

module _ (i : ℕ) where
  -- From one moment to a later one.
  abbrev pub Between : Moment → Moment → List Event → Type 0
  Between n k evs = Tracks i evs n.backends k.backends

  in_turn :
      (n m k : Moment) (past later : List Event)
      → Between n m past
      → Between m k later
      → Between n k (later ++ past)
  in_turn n m k past later first second =
      Tracks-trans i later past n.backends m.backends k.backends first second

  Move-Between : {n m : Moment} (step : Move n m) → Between n m (move_events i step)
  unfolding move_events
  Move-Between {n} (ended j before after e) =
      modify-Tracks i n.backends j decrement_conns decrement-SameHealth
  Move-Between {n} (changed j e) = handle-Tracks i n.backends j e

  Moves-Between : {n m : Moment} (ms : Moves n m) → Between n m (moves_events i ms)
  unfolding moves_events
  Moves-Between {n} still = Tracks-refl i n.backends
  Moves-Between {n} {m} (moved {m = between} ms step) =
      in_turn n between m (moves_events i ms) (move_events i step) (Moves-Between ms)
        (Move-Between step)

  two-Moves :
      {n m k : Moment} (first : Moves n m) (second : Moves m k)
      → Between n k (moves_events i second ++ moves_events i first)
  two-Moves {n} {m} {k} first second =
      in_turn n m k (moves_events i first) (moves_events i second) (Moves-Between first)
        (Moves-Between second)

  scan-Between :
      {max_conns : ℤ} {j : ℕ} {n k : Moment} {s t : ScanState} (l : LiveScan max_conns j n s k t)
      → Between n k (scan_events i l)
  unfolding scan_events
  scan-Between {n = n} (at_end e) = Tracks-refl i n.backends
  scan-Between {n = n} {k = k} (visited m₁ m₂ b₁ b₂ to₁ at₁ to₂ at₂ rest) =
      in_turn n m₂ k (moves_events i to₂ ++ moves_events i to₁) (scan_events i rest)
        (two-Moves to₁ to₂) (scan-Between rest)

  Look-Between : {n k : Moment} {j : ℕ} (l : Look n j k) → Between n k (look_events i l)
  unfolding look_events
  Look-Between l = two-Moves l.to_first l.to_second

  walk-Between :
      {now : ℕ} {ttl : ℤ} {hashes : List Hash} {table : List (Hash × Entry)} {n k : Moment}
      {r : Option (List (Hash × Entry) × Option ℕ)} (w : LiveWalk now ttl hashes table n r k)
      → Between n k (walk_events i w)
  unfolding walk_events
  walk-Between {n = n} walked = Tracks-refl i n.backends
  walk-Between (absent e rest) = walk-Between rest
  walk-Between {n = n} (outside e at off) = Tracks-refl i n.backends
  walk-Between {n = n} {k = k} (dropped e m l at verdict rest) =
      in_turn n m k (look_events i l) (walk_events i rest) (Look-Between l) (walk-Between rest)
  walk-Between {n = n} {k = k} (passed e m l at verdict rest) =
      in_turn n m k (look_events i l) (walk_events i rest) (Look-Between l) (walk-Between rest)
  walk-Between (found e l at verdict) = Look-Between l

  route-Between :
      {max_conns : ℤ} {least : Choice} {n k : Moment} {pin : Option ℕ} {r : Route}
      (l : LiveRoute max_conns least n pin r k)
      → Between n k (route_events i l)
  unfolding route_events
  route-Between {n = n} unpinned = Tracks-refl i n.backends
  route-Between (guarded m b least to at to' at') = two-Moves to to'
  route-Between (capped b to at) = Moves-Between to
  route-Between {n = n} faulted = Tracks-refl i n.backends

  take_slot_of-Between : (c : Choice) (n : Moment) → Between n (take_slot_of c n) []
  take_slot_of-Between (picked j) n =
      modify-Tracks i n.backends j increment_conns increment-SameHealth
  take_slot_of-Between (refused e) n = Tracks-refl i n.backends
  take_slot_of-Between panicked n = Tracks-refl i n.backends

  follow-Between :
      {chain : List Hash} {now : ℕ} {a : Affinity} {r : Route} {n k : Moment}
      {x : Option (Affinity × Choice)} (l : LiveFollow chain now a r n k x)
      → Between n k (follow_events i l)
  unfolding follow_events
  follow-Between {n = n} {k = k} (served j m b e to to' at) =
      let taken = take_slot_of (picked j) m in
      in_turn n taken k (moves_events i to) (moves_events i to')
        (in_turn n m taken (moves_events i to) [] (Moves-Between to)
          (take_slot_of-Between (picked j) m))
        (Moves-Between to')
  follow-Between {n = n} turned_away = Tracks-refl i n.backends
  follow-Between {n = n} crashed = Tracks-refl i n.backends

  pub select-Between :
      {intn : ℕ → ℕ} {max_conns : ℤ} {n k : Moment} {c : Choice}
      (l : LiveSelect intn max_conns n k c)
      → Between n k (select_events i l)
  unfolding select_events
  select-Between {n = n} {k = k} {c = c} (selected {m = m} {k = k'} scan to) =
      in_turn n k' k (moves_events i to ++ scan_events i scan) []
        (in_turn n m k' (scan_events i scan) (moves_events i to) (scan-Between scan)
          (Moves-Between to))
        (take_slot_of-Between c k')

  pub select_cache_aware-Between :
      {intn : ℕ → ℕ} {max_conns : ℤ} {chain : List Hash} {now : ℕ} {a : Affinity} {n k : Moment}
      {x : Option (Affinity × Choice)} (l : LiveSelectCacheAware intn max_conns chain now a n k x)
      → Between n k (select_cache_aware_events i l)
  unfolding select_cache_aware_events
  select_cache_aware-Between {n = n} {k = k}
        (routed m₁ m₂ m₃ t table pin r scanned walked_to routed_to followed) =
      let before =
        in_turn n m₁ m₂ (scan_events i scanned) (walk_events i walked_to) (scan-Between scanned)
          (walk-Between walked_to) in
      let up_to_route =
        in_turn n m₂ m₃ (walk_events i walked_to ++ scan_events i scanned)
          (route_events i routed_to) before (route-Between routed_to) in
      in_turn n m₃ k
        (route_events i routed_to ++ (walk_events i walked_to ++ scan_events i scanned))
        (follow_events i followed) up_to_route (follow-Between followed)
  select_cache_aware-Between {n = n} {k = k} (out_of_range m t scanned walked_to) =
      in_turn n m k (scan_events i scanned) (walk_events i walked_to) (scan-Between scanned)
        (walk-Between walked_to)
