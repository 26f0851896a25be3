-- ===== src/Stats.antt =====
-- The routing counters of the status line (lib/cacheaware.go, `affinityStatsLine`).
use go_load_balance.Prelude.{ℕ, ◌+◌, ◌*◌, ◌/◌, ◌%◌, ◌^◌, List, ◌==◌, if◌then◌else◌, length}
use go_load_balance.Affinity.{Affinity}
pub mod Shares
pub mod Counting

-- What the line reports: no request, or the shares in per cent, the requests, and the pinned keys.
pub data StatsLine : Type 0 where
  idle : (keys : ℕ) → StatsLine
  shares : (warm cold overflow total keys : ℕ) → StatsLine

-- Sums of uint64.
abbrev pub stats_total : Affinity → ℕ
stats_total a = (a.warm + a.cold + a.overflow) % 2 ^ 64

-- A share in per cent, where a request was counted; the product is a uint64.
abbrev pub pct : (total n : ℕ) → ℕ
pct total n = n * 100 % 2 ^ 64 / total

abbrev pub reset_counters : Affinity → Affinity
reset_counters a = record a { warm = 0; cold = 0; overflow = 0 }

-- The line over the counters and the size of the table as they were read.
abbrev pub stats_line : (warm cold overflow total keys : ℕ) → StatsLine
stats_line warm cold overflow total keys =
    if total == 0
    then idle keys
    else shares (pct total warm) (pct total cold) (pct total overflow) total keys

unfoldable pub affinity_stats_line : Affinity → Affinity × StatsLine
affinity_stats_line a =
    (reset_counters a, stats_line a.warm a.cold a.overflow (stats_total a) (length a.table))
