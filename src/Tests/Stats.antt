-- ===== src/Tests/Stats.antt =====
-- The counters of a warm request, and the status line over them.
use go_load_balance.Prelude.{◌+◌, ◌%◌, ◌^◌, ◌≡◌, refl, some, ◌-ℤ◌, to_int, arith}
use go_load_balance.Table.{lookup, insert, get_records}
use go_load_balance.Backend.{increment_conns}
use go_load_balance.Affinity.{Affinity}
use go_load_balance.Pool.{Pool, scan, visit, tie_break}
use go_load_balance.Routing.Select.{IsReady}
use go_load_balance.Routing.{select_cache_aware}
use go_load_balance.Stats.{shares, affinity_stats_line}
use go_load_balance.Stats.Counting.{
  Calls, quiet, call, counted, served_count, affinity_stats_line-counted,
}
use go_load_balance.Tests.Samples.{affinity, pool, first}
use go_load_balance.Tests.Pool.{first-IsIntn}
use go_load_balance.Tests.Routing.{chain, limit, three-CountsNat, affinity-AffinityInv}
use go_load_balance.Tests.Conversation.{after}

-- Two warm, one cold and no overflow request are 66, 33 and 0 per cent.
abbrev three_requests : Affinity
three_requests = record affinity { warm = 2; cold = 1 }

line_test : (affinity_stats_line three_requests).1 ≡ shares 66 33 0 3 1
unfolding affinity_stats_line
line_test = refl

-- The routing state after a status line, and a pool with it.
abbrev calm : Affinity
calm = record affinity { cold = 0 }

abbrev calm_pool : Pool
calm_pool = record pool { affinity = some calm }

calm-IsReady : IsReady calm_pool calm
calm-IsReady = record {
  enabled = refl;
  capped = omega arith;
  limit = rw limit (omega arith);
  counts = three-CountsNat;
  inv = record {
    same_cap = refl;
    in_range = affinity-AffinityInv.in_range;
    listed = affinity-AffinityInv.listed;
    bounded = affinity-AffinityInv.bounded;
  };
}

one_call :
    Calls
      (affinity_stats_line affinity).0
      (0 + served_count (select_cache_aware first 9 chain calm_pool).1)
      (record after { cold = 0 })
unfolding affinity_stats_line select_cache_aware scan visit tie_break lookup insert get_records
    to_int ◌-ℤ◌ increment_conns
one_call = call chain 9 calm_pool first quiet calm-IsReady first-IsIntn refl

served_test : served_count (select_cache_aware first 9 chain calm_pool).1 ≡ 1
unfolding select_cache_aware scan visit tie_break lookup insert get_records to_int ◌-ℤ◌
    increment_conns
served_test = refl

affinity_stats_line-counted_example :
    counted (affinity_stats_line (record after { cold = 0 })).1
    ≡ (0 + served_count (select_cache_aware first 9 chain calm_pool).1) % 2 ^ 64
affinity_stats_line-counted_example =
    affinity_stats_line-counted affinity (record after { cold = 0 })
      (0 + served_count (select_cache_aware first 9 chain calm_pool).1) one_call
