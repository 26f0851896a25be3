-- ===== src/Affinity.antt =====
-- The state of cache-aware routing (lib/cacheaware.go, from `affinityEntry` to `affinityState`).
-- A time is a number of nanoseconds on the monotonic clock.
use go_load_balance.Prelude.{ℕ, ℤ, List}
use go_load_balance.Table.{Hash}

-- `epoch` must still match the backend's epoch for the pin to be valid.
pub record Entry : Type 0 where
  pub backend : ℕ
  pub epoch : ℕ  -- uint64
  pub last_seen : ℕ

-- The hashes that one request upserted.
pub record RequestRecord : Type 0 where
  pub hashes : List Hash
  pub at : ℕ

pub record Affinity : Type 0 where
  pub ttl : ℤ
  pub max_conns : ℤ
  pub table : List (Hash × Entry)
  pub records : List (ℕ × List RequestRecord)
  pub warm : ℕ  -- uint64
  pub cold : ℕ
  pub overflow : ℕ
