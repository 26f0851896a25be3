-- ===== src/Logger.antt =====
-- lib/logger.go: the status line and when it is printed. Each function reads the pool once; in the
-- code each reading of a backend takes the backend's lock by itself.
use go_load_balance.Prelude.{
  ℕ, suc, ◌-◌, ◌*◌, Bool, true, false, List, [], ◌∷◌, ◌++◌, map, String, Option, none, some, ℤ, pos,
  ◌-ℤ◌, to_int, ltb_ℤ, leb, if◌then◌else◌, length, take, drop,
}
use go_load_balance.Backend.{Backend, is_healthy, get_active_conns}
use go_load_balance.Affinity.{Affinity}
use go_load_balance.Pool.{Pool, get_status, get_backends}
use go_load_balance.Stats.{StatsLine, affinity_stats_line}
use go_load_balance.HealthChecker.{second, min_ℤ}
use go_load_balance.Ticker.{Wake, tick, done, loop}
use Text.{join_ints, bracketed, elided}
pub mod Text
pub mod Order
pub mod Report

-- `slices.SortFunc`, for an order in which only equal elements compare as equal: there is one
-- sorted list then, whatever the algorithm.
abbrev pub insert_by {ℓ} : {A : Type ℓ} → (cmp : A → A → ℤ) → A → List A → List A
insert_by cmp x [] = x ∷ []
insert_by cmp x (y ∷ ys) = if ltb_ℤ (pos 0) (cmp x y) then y ∷ insert_by cmp x ys else x ∷ y ∷ ys

unfoldable pub sort_func {ℓ} : {A : Type ℓ} → (cmp : A → A → ℤ) → List A → List A
sort_func cmp [] = []
sort_func cmp (x ∷ xs) = insert_by cmp x (sort_func cmp xs)

abbrev pub by_decreasing : ℤ → ℤ → ℤ
by_decreasing a b = to_int (b -ℤ a)

abbrev pub conns_of_healthy : List Backend → List ℤ
conns_of_healthy [] = []
conns_of_healthy (b ∷ bs) =
    if is_healthy b then get_active_conns b ∷ conns_of_healthy bs else conns_of_healthy bs

abbrev pub sorted_conns : List Backend → List ℤ
sorted_conns bs = sort_func by_decreasing (conns_of_healthy bs)

-- The summary is of the whole list, or of its first and its last 15 elements.
abbrev pub summary_text : (itoa : ℤ → String) → List ℤ → String
summary_text itoa conns =
    if leb (length conns) 30
    then bracketed (join_ints itoa conns)
    else elided (join_ints itoa (take 15 conns)) (join_ints itoa (drop (length conns - 15) conns))

unfoldable pub conns_summary : (itoa : ℤ → String) → List Backend → String
unfolding sort_func join_ints
conns_summary itoa bs = summary_text itoa (sorted_conns bs)

pub data StatusLine : Type 0 where
  summary :
      (active healthy : ℤ) (total : ℕ) (conns : String) (affinity : Option StatsLine) → StatusLine
  backend_line : (url : String) (healthy : Bool) (active : ℤ) → StatusLine

-- The counters are reset with the line on them.
abbrev pub suffix_of : Pool → Option Affinity → Pool × Option StatsLine
suffix_of p none = (p, none)
suffix_of p (some a) =
    let (a', line) = affinity_stats_line a in (record p { affinity = some a' }, some line)

abbrev pub affinity_suffix : Pool → Pool × Option StatsLine
affinity_suffix p = suffix_of p p.affinity

abbrev pub backend_lines : List Backend → List StatusLine
backend_lines bs = map (λ (b : Backend). backend_line b.url (is_healthy b) (get_active_conns b)) bs

unfoldable pub log_status : (itoa : ℤ → String) (verbose : Bool) → Pool → Pool × List StatusLine
unfolding conns_summary
log_status itoa verbose p =
    let status = get_status p in
    let (p', affinity) = affinity_suffix p in
    let line =
      summary status.total_active status.healthy_count status.total_count
        (conns_summary itoa (get_backends p')) affinity in
    (p', line ∷ (if verbose then backend_lines (get_backends p') else []))

pub record StatusLogger : Type 0 where
  pub interval : ℤ
  pub verbose : Bool

abbrev pub new_status_logger : (interval : ℤ) (verbose : Bool) → StatusLogger
new_status_logger interval verbose = record { interval = interval; verbose = verbose }

abbrev pub initial_delay : StatusLogger → ℤ
initial_delay sl = min_ℤ sl.interval (pos (5 * second))

-- The `select` on the initial timer, and then the loop; a timer that fires brings the pool as it is
-- then. Each round adds its lines to the log.
abbrev pub round : (itoa : ℤ → String) → StatusLogger → Pool → List StatusLine → List StatusLine
round itoa sl p log = log ++ (log_status itoa sl.verbose p).1

unfoldable pub start_logger :
    (itoa : ℤ → String) → StatusLogger → List (Wake Pool) → List StatusLine → List StatusLine × Bool
unfolding log_status
start_logger itoa sl [] log = (log, false)
start_logger itoa sl (done ∷ wakes) log = (log, true)
start_logger itoa sl (tick p ∷ wakes) log = loop (round itoa sl) wakes (round itoa sl p log)
