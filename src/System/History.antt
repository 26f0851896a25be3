-- ===== src/System/History.antt =====
-- The health events that befall a backend along the steps of the balancer.
use go_load_balance.Prelude.{ℕ, List, [], ◌∷◌, ◌++◌, Option, ◌==◌, if◌then◌else◌, ℤ}
use go_load_balance.Affinity.{Affinity, Entry}
use go_load_balance.Chain.{Codec}
use go_load_balance.Health.{Event}
use go_load_balance.Pool.{Pool, Choice, ScanState}
use go_load_balance.Routing.{Route}
use go_load_balance.Table.{Hash}
use go_load_balance.Live.{
  Moment, Move, ended, changed, Moves, still, moved, LiveScan, at_end, visited, LiveSelect,
  selected,
}
use go_load_balance.Live.CacheAware.{
  Look, LiveWalk, walked, absent, outside, dropped, passed, found, LiveRoute, unpinned, guarded,
  capped, faulted, LiveFollow, served, turned_away, crashed, LiveSelectCacheAware, routed,
  out_of_range,
}
use go_load_balance.System.{
  System, Step, arrive, arrive_live, arrive_live_cache_aware, end, health, status, Reach, start,
  later,
}

-- Of backend `i`, the latest event first.
module _ (i : ℕ) where
  abbrev pub event_at : ℕ → Event → List Event
  event_at j e = if j == i then e ∷ [] else []

  unfoldable pub move_events : {n m : Moment} → Move n m → List Event
  move_events (ended j before after e) = []
  move_events (changed j e) = event_at j e

  unfoldable pub moves_events : {n m : Moment} → Moves n m → List Event
  unfolding move_events
  moves_events still = []
  moves_events (moved ms step) = move_events step ++ moves_events ms

  unfoldable pub scan_events :
      {max_conns : ℤ} {j : ℕ} {n k : Moment} {s t : ScanState}
      → LiveScan max_conns j n s k t
      → List Event
  unfolding moves_events
  scan_events (at_end e) = []
  scan_events (visited m₁ m₂ b₁ b₂ to₁ at₁ to₂ at₂ rest) =
      scan_events rest ++ (moves_events to₂ ++ moves_events to₁)

  unfoldable pub look_events : {n k : Moment} {j : ℕ} → Look n j k → List Event
  unfolding moves_events
  look_events l = moves_events l.to_second ++ moves_events l.to_first

  unfoldable pub walk_events :
      {now : ℕ} {ttl : ℤ} {hashes : List Hash} {table : List (Hash × Entry)} {n k : Moment}
      {r : Option (List (Hash × Entry) × Option ℕ)}
      → LiveWalk now ttl hashes table n r k
      → List Event
  unfolding look_events
  walk_events walked = []
  walk_events (absent e rest) = walk_events rest
  walk_events (outside e at off) = []
  walk_events (dropped e m l at verdict rest) = walk_events rest ++ look_events l
  walk_events (passed e m l at verdict rest) = walk_events rest ++ look_events l
  walk_events (found e l at verdict) = look_events l

  unfoldable pub route_events :
      {max_conns : ℤ} {least : Choice} {n k : Moment} {pin : Option ℕ} {r : Route}
      → LiveRoute max_conns least n pin r k
      → List Event
  unfolding moves_events
  route_events unpinned = []
  route_events (guarded m b least to at to' at') = moves_events to' ++ moves_events to
  route_events (capped b to at) = moves_events to
  route_events faulted = []

  unfoldable pub follow_events :
      {chain : List Hash} {now : ℕ} {a : Affinity} {r : Route} {n k : Moment}
      {x : Option (Affinity × Choice)}
      → LiveFollow chain now a r n k x
      → List Event
  unfolding moves_events
  follow_events (served j m b e to to' at) = moves_events to' ++ moves_events to
  follow_events turned_away = []
  follow_events crashed = []

  unfoldable pub select_events :
      {intn : ℕ → ℕ} {max_conns : ℤ} {n k : Moment} {c : Choice}
      → LiveSelect intn max_conns n k c
      → List Event
  unfolding scan_events
  select_events (selected scan to) = moves_events to ++ scan_events scan

  unfoldable pub select_cache_aware_events :
      {intn : ℕ → ℕ} {max_conns : ℤ} {chain : List Hash} {now : ℕ} {a : Affinity} {n k : Moment}
      {x : Option (Affinity × Choice)}
      → LiveSelectCacheAware intn max_conns chain now a n k x
      → List Event
  unfolding scan_events walk_events route_events follow_events
  select_cache_aware_events (routed m₁ m₂ m₃ t table pin r scanned walked_to routed_to followed) =
      follow_events followed
      ++ (route_events routed_to ++ (walk_events walked_to ++ scan_events scanned))
  select_cache_aware_events (out_of_range m t scanned walked_to) =
      walk_events walked_to ++ scan_events scanned

  unfoldable pub step_events : {codec : Codec} {s t : System} → Step codec s t → List Event
  unfolding select_events select_cache_aware_events
  step_events (arrive intn now body random small) = []
  step_events (arrive_live intn n c off random small select) = select_events select
  step_events (arrive_live_cache_aware intn now body a a' n c on random small select) =
      select_cache_aware_events select
  step_events (end j before after e) = []
  step_events (health j e) = event_at j e
  step_events (status a e) = []

  unfoldable pub history : {codec : Codec} {p : Pool} {s : System} → Reach codec p s → List Event
  unfolding step_events
  history start = []
  history (later r step) = step_events step ++ history r
