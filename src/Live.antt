-- ===== src/Live.antt =====
-- `SelectBackend` among other goroutines (lib/balancer.go). The pool's lock keeps other selections
-- out, but `DecrementConns` and the changes of health take the backend's lock only: they can fall
-- between any two reads of the scan.
pub mod CacheAware
pub mod Quiet
use go_load_balance.Prelude.{
  ℕ, suc, ◌≡◌, Bool, false, List, [], ◌∷◌, ◌++◌, ℤ, max_int, length, modify,
}
use go_load_balance.Backend.{Backend, increment_conns, decrement_conns}
use go_load_balance.Health.{Event, handle}
use go_load_balance.Pool.{Choice, picked, refused, panicked, ScanState, visit, tie_break}
use go_load_balance.Pool.Choose.{At}

-- The backends at one moment, and the backend of each request that holds a slot.
pub record Moment : Type 0 where
  pub backends : List Backend
  pub in_flight : List ℕ

-- What another goroutine does to a backend.
pub data Move (n : Moment) : Moment → Type 0 where
  ended :
      (i : ℕ) (before after : List ℕ)
      → n.in_flight ≡ before ++ i ∷ after
      → Move n
          (record { backends = modify n.backends i decrement_conns; in_flight = before ++ after })
  changed : (i : ℕ) (e : Event) → Move n (record n { backends = modify n.backends i (handle e) })

pub data Moves (n : Moment) : Moment → Type 0 where
  still : Moves n n
  moved : {m k : Moment} → Moves n m → Move m k → Moves n k

-- The loop of `leastConnLocked` from backend `i` on: it reads the health of the backend at one
-- moment, and its connections at a later one.
pub data LiveScan (max_conns : ℤ) : ℕ → Moment → ScanState → Moment → ScanState → Type 0 where
  at_end :
      {i : ℕ} {n : Moment} {s : ScanState} → i ≡ length n.backends → LiveScan max_conns i n s n s
  visited :
      {i : ℕ} {n k : Moment} {s t : ScanState} (m₁ m₂ : Moment) (b₁ b₂ : Backend)
      → Moves n m₁
      → At m₁.backends i b₁
      → Moves m₁ m₂
      → At m₂.backends i b₂
      → LiveScan max_conns (suc i) m₂ (visit max_conns i (record b₂ { healthy = b₁.healthy }) s) k t
      → LiveScan max_conns i n s k t

abbrev pub take_slot_of : Choice → Moment → Moment
take_slot_of (picked i) n = record {
  backends = modify n.backends i increment_conns;
  in_flight = i ∷ n.in_flight;
}
take_slot_of (refused e) n = n
take_slot_of panicked n = n

-- `SelectBackend`: the scan, the tie-break, and the slot, which is taken at a later moment.
pub data LiveSelect (intn : ℕ → ℕ) (max_conns : ℤ) (n : Moment) : Moment → Choice → Type 0 where
  selected :
      {m k : Moment} {t : ScanState}
      → LiveScan max_conns 0 n (record { min_conns = max_int; least = []; any_healthy = false }) m t
      → Moves m k
      → LiveSelect intn max_conns n
          (take_slot_of (tie_break intn t.any_healthy t.least) k)
          (tie_break intn t.any_healthy t.least)
