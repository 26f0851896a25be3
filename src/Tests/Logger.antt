-- ===== src/Tests/Logger.antt =====
-- The status of three backends, of which one is down.
use go_load_balance.Prelude.{
  zero, suc, ◌≡◌, refl, true, false, List, [], ◌∷◌, String, some, Option, ℤ, pos, negsuc, arith,
  to_int, ◌+ℤ◌, ◌-ℤ◌, length, if◌then◌else◌,
}
use mathlib.Core.List.{Perm}
use go_load_balance.Ticker.{tick, done, loop}
use go_load_balance.Pool.{get_status}
use go_load_balance.Pool.Totals.{sum_conns}
use go_load_balance.Stats.{StatsLine, shares, affinity_stats_line}
use go_load_balance.Logger.{
  StatusLine, summary, sort_func, conns_of_healthy, log_status, new_status_logger, StatusLogger,
  start_logger,
}
use go_load_balance.Logger.Text.{join_ints}
use go_load_balance.Logger.Order.{IsDescending, Shown}
use go_load_balance.Logger.Report.{log_status_reports}
use go_load_balance.Tests.Samples.{three, pool}
use go_load_balance.Tests.Routing.{three-CountsNat}

-- `strconv.Itoa` on one digit.
abbrev itoa : ℤ → String
itoa (pos zero) = "0"
itoa (pos (suc zero)) = "1"
itoa (pos (suc (suc n))) = "2"
itoa (negsuc n) = "-"

abbrev line : StatusLine
line = summary (pos 3) (pos 2) 3 "[2, 1]" (some (shares 0 100 0 1 1))

log_status_test : (log_status itoa false pool).1 ≡ line ∷ []
unfolding log_status get_status affinity_stats_line sort_func join_ints to_int ◌+ℤ◌ ◌-ℤ◌
log_status_test = refl

log_status_reports_example :
    (conns : List ℤ) × (text : String) × (affinity : Option StatsLine) × (rest : List StatusLine)
    × ((log_status itoa true pool).1
        ≡ summary (pos (sum_conns three)) (pos (length conns)) (length three) text affinity ∷ rest)
    × IsDescending conns
    × Perm conns (conns_of_healthy three)
    × Shown itoa conns text
    × (length rest ≡ (if true then length three else 0))
    × ((log_status itoa true pool).0.backends ≡ three)
    × ((log_status itoa true pool).0.max_conns ≡ pos 10)
log_status_reports_example =
    log_status_reports itoa true pool three-CountsNat (omega arith) (omega arith)

abbrev logger : StatusLogger
logger = new_status_logger (pos 10000000000) false

-- The context is done before the second report.
start_logger_test :
    start_logger itoa logger (tick pool ∷ done ∷ tick pool ∷ []) [] ≡ (line ∷ [], true)
unfolding start_logger loop log_status get_status affinity_stats_line sort_func join_ints to_int
    ◌+ℤ◌ ◌-ℤ◌
start_logger_test = refl
