-- ===== src/Live/CacheAware.antt =====
-- `selectCacheAware` among other goroutines (lib/cacheaware.go). Both locks keep other selections
-- and the routing state still, but each read of a backend can have a release or a change of health
-- before it.
use go_load_balance.Prelude.{
  ℕ, ◌+◌, ◌%◌, ◌^◌, ◌≡◌, false, List, [], ◌∷◌, Option, none, some, ℤ, max_int, reverse, get_elem?,
}
use go_load_balance.Table.{Hash, hash_eq, lookup, delete}
use go_load_balance.Affinity.{Affinity, Entry}
use go_load_balance.Backend.{Backend}
use go_load_balance.Pool.{SelectError, Choice, picked, refused, panicked, ScanState, tie_break}
use go_load_balance.Pool.Choose.{At}
use go_load_balance.Routing.{
  stale, unhealthy, valid, judge_backend, Route, warm, cold, overflow, failed, fault, with_pinned,
  without_pin, upsert_chain,
}
use go_load_balance.Live.{Moment, Moves, LiveScan, take_slot_of}

-- The epoch of backend `i` is read at one moment, and its health at a later one.
pub record Look (n : Moment) (i : ℕ) (k : Moment) : Type 0 where
  pub between : Moment
  pub first : Backend
  pub second : Backend
  pub to_first : Moves n between
  pub at_first : At between.backends i first
  pub to_second : Moves between k
  pub at_second : At k.backends i second

abbrev pub seen : {n k : Moment} {i : ℕ} → Look n i k → Backend
seen l = record l.second { epoch = l.first.epoch }

-- The walk over the chain, with the result of `walk`.
pub data LiveWalk (now : ℕ) (ttl : ℤ)
    : List Hash
      → List (Hash × Entry)
      → Moment
      → Option (List (Hash × Entry) × Option ℕ)
      → Moment
      → Type 0 where
  walked :
      {table : List (Hash × Entry)} {n : Moment}
      → LiveWalk now ttl [] table n (some (table, none)) n
  absent :
      {h : Hash} {hashes : List Hash} {table : List (Hash × Entry)} {n k : Moment}
      {r : Option (List (Hash × Entry) × Option ℕ)}
      → lookup h table ≡ none
      → LiveWalk now ttl hashes table n r k
      → LiveWalk now ttl (h ∷ hashes) table n r k
  outside :
      {h : Hash} {hashes : List Hash} {table : List (Hash × Entry)} {n : Moment} (e : Entry)
      → lookup h table ≡ some e
      → get_elem? n.backends e.backend ≡ none
      → LiveWalk now ttl (h ∷ hashes) table n none n
  dropped :
      {h : Hash} {hashes : List Hash} {table : List (Hash × Entry)} {n k : Moment}
      {r : Option (List (Hash × Entry) × Option ℕ)} (e : Entry) (m : Moment)
      (l : Look n e.backend m)
      → lookup h table ≡ some e
      → judge_backend now ttl e (some (seen l)) ≡ stale
      → LiveWalk now ttl hashes (delete h table) m r k
      → LiveWalk now ttl (h ∷ hashes) table n r k
  passed :
      {h : Hash} {hashes : List Hash} {table : List (Hash × Entry)} {n k : Moment}
      {r : Option (List (Hash × Entry) × Option ℕ)} (e : Entry) (m : Moment)
      (l : Look n e.backend m)
      → lookup h table ≡ some e
      → judge_backend now ttl e (some (seen l)) ≡ unhealthy
      → LiveWalk now ttl hashes table m r k
      → LiveWalk now ttl (h ∷ hashes) table n r k
  found :
      {h : Hash} {hashes : List Hash} {table : List (Hash × Entry)} {n k : Moment} (e : Entry)
      (l : Look n e.backend k)
      → lookup h table ≡ some e
      → judge_backend now ttl e (some (seen l)) ≡ valid e.backend
      → LiveWalk now ttl (h ∷ hashes) table n (some (table, some e.backend)) k

-- The load guard: the counter of the pinned backend is read before that of the least loaded one.
pub data LiveRoute (max_conns : ℤ) : Choice → Moment → Option ℕ → Route → Moment → Type 0 where
  unpinned : {least : Choice} {n : Moment} → LiveRoute max_conns least n none (without_pin least) n
  guarded :
      {l i : ℕ} {n k : Moment} (m : Moment) (b least : Backend)
      → Moves n m
      → At m.backends i b
      → Moves m k
      → At k.backends l least
      → LiveRoute max_conns
          (picked l)
          n
          (some i)
          (with_pinned max_conns i (picked l) (some b) (some least))
          k
  capped :
      {e : SelectError} {i : ℕ} {n k : Moment} (b : Backend)
      → Moves n k
      → At k.backends i b
      → LiveRoute max_conns
          (refused e)
          n
          (some i)
          (with_pinned max_conns i (refused e) (some b) none)
          k
  faulted : {i : ℕ} {n : Moment} → LiveRoute max_conns panicked n (some i) fault n

-- The backend that a route leads to.
abbrev pub winner : Route → Option ℕ
winner (warm i) = some i
winner (cold i) = some i
winner (overflow i) = some i
winner (failed e) = none
winner fault = none

abbrev pub tally : Route → Affinity → Affinity
tally (warm i) a = record a { warm = (a.warm + 1) % 2 ^ 64 }
tally (cold i) a = record a { cold = (a.cold + 1) % 2 ^ 64 }
tally (overflow i) a = record a { overflow = (a.overflow + 1) % 2 ^ 64 }
tally (failed e) a = a
tally fault a = a

-- `none` is a panic.
abbrev pub settle : ℕ → Option Affinity → Option (Affinity × Choice)
settle i none = none
settle i (some a) = some (a, picked i)

-- The slot is taken at one moment, and the epoch of the winner is read at a later one.
pub data LiveFollow (chain : List Hash) (now : ℕ) (a : Affinity)
    : Route → Moment → Moment → Option (Affinity × Choice) → Type 0 where
  served :
      {r : Route} {n k : Moment} (i : ℕ) (m : Moment) (b : Backend)
      → winner r ≡ some i
      → Moves n m
      → Moves (take_slot_of (picked i) m) k
      → At k.backends i b
      → LiveFollow chain now a r n k (settle i (upsert_chain chain i b.epoch now (tally r a)))
  turned_away :
      {e : SelectError} {n : Moment} → LiveFollow chain now a (failed e) n n (some (a, refused e))
  crashed : {n : Moment} → LiveFollow chain now a fault n n none

pub data LiveSelectCacheAware (intn : ℕ → ℕ) (max_conns : ℤ) (chain : List Hash) (now : ℕ)
    (a : Affinity) (n : Moment) : Moment → Option (Affinity × Choice) → Type 0 where
  routed :
      {k : Moment} {x : Option (Affinity × Choice)} (m₁ m₂ m₃ : Moment) (t : ScanState)
      (table : List (Hash × Entry)) (pin : Option ℕ) (r : Route)
      → LiveScan max_conns 0 n
          (record { min_conns = max_int; least = []; any_healthy = false })
          m₁
          t
      → LiveWalk now a.ttl (reverse chain) a.table m₁ (some (table, pin)) m₂
      → LiveRoute a.max_conns (tie_break intn t.any_healthy t.least) m₂ pin r m₃
      → LiveFollow chain now (record a { table = table }) r m₃ k x
      → LiveSelectCacheAware intn max_conns chain now a n k x
  out_of_range :
      {k : Moment} (m : Moment) (t : ScanState)
      → LiveScan max_conns 0 n (record { min_conns = max_int; least = []; any_healthy = false }) m t
      → LiveWalk now a.ttl (reverse chain) a.table m none k
      → LiveSelectCacheAware intn max_conns chain now a n k none
