-- ===== src/Logger/Report.antt =====
-- What a status line reports, and when (lib/logger.go, `logStatus` and `Start`).
use go_load_balance.Prelude.{
  suc, ◌<◌, ◌^◌, ◌≡◌, inl, inr, refl, sym, ap, ◌∙◌, Bool, true, false, List, [], ◌∷◌, ◌++◌, map,
  String, Option, none, some, ℤ, pos, ltb_ℤ, length, arith, Bool-cases, if◌then◌else◌, append-nil,
  append_assoc,
}
use go_load_balance.Backend.{Backend}
use go_load_balance.Affinity.{Affinity}
use go_load_balance.Pool.{Pool, get_status}
use go_load_balance.Pool.Totals.{
  count_healthy, get_status-healthy_count, sum_conns, get_status-total_active,
  get_status-total_count,
}
use go_load_balance.Stats.{StatsLine}
use go_load_balance.Ticker.{Wake, tick, done, loop-done, rounds}
use mathlib.Core.List.{Perm}
use go_load_balance.Routing.Guard.{CountsNat}
use go_load_balance.Logger.Order.{IsDescending, Shown, conns_summary_lists}
use go_load_balance.Logger.{
  insert_by, sort_func, by_decreasing, conns_of_healthy, sorted_conns, conns_summary, StatusLine,
  summary, suffix_of, affinity_suffix, backend_lines, log_status, StatusLogger, round, start_logger,
}

length-insert_by : (x : ℤ) (xs : List ℤ) → length (insert_by by_decreasing x xs) ≡ suc (length xs)
length-insert_by x [] = refl
length-insert_by x (y ∷ ys) = elim (Bool-cases (ltb_ℤ (pos 0) (by_decreasing x y))) [
  | inl after ↦ rw after (ap suc (length-insert_by x ys))
  | inr before ↦ rw before refl
]

length-sort_func : (xs : List ℤ) → length (sort_func by_decreasing xs) ≡ length xs
unfolding sort_func
length-sort_func [] = refl
length-sort_func (x ∷ xs) =
    length-insert_by x (sort_func by_decreasing xs) ∙ ap suc (length-sort_func xs)

length-conns_of_healthy : (bs : List Backend) → length (conns_of_healthy bs) ≡ count_healthy bs
length-conns_of_healthy [] = refl
length-conns_of_healthy (b ∷ bs) = ground (arith, length-conns_of_healthy bs)

length-backend_lines : (bs : List Backend) → length (backend_lines bs) ≡ length bs
length-backend_lines [] = refl
length-backend_lines (b ∷ bs) = ap suc (length-backend_lines bs)

length-rest :
    (verbose : Bool) (bs : List Backend)
    → length (if verbose then backend_lines bs else []) ≡ (if verbose then length bs else 0)
length-rest true bs = length-backend_lines bs
length-rest false bs = refl

-- The suffix touches nothing but the counters of the routing state.
suffix_of-backends : (p : Pool) (o : Option Affinity) → (suffix_of p o).0.backends ≡ p.backends
suffix_of-backends p none = refl
suffix_of-backends p (some a) = refl

suffix_of-max_conns : (p : Pool) (o : Option Affinity) → (suffix_of p o).0.max_conns ≡ p.max_conns
suffix_of-max_conns p none = refl
suffix_of-max_conns p (some a) = refl

-- A status report has one line on the pool, with the connections of all backends, the number of
-- healthy backends and that of all backends. The line lists one connection count for each healthy
-- backend: exactly theirs, in decreasing order, of more than 30 the 15 largest and the 15 smallest.
-- If it is verbose there is a line for each backend besides. The report changes no backend and no
-- cap. This is for counters that are not negative, with sums that fit an int.
pub log_status_reports :
    (itoa : ℤ → String) (verbose : Bool) (p : Pool)
    → CountsNat p.backends
    → sum_conns p.backends < 2 ^ 63
    → length p.backends < 2 ^ 63
    → (conns : List ℤ) × (text : String) × (affinity : Option StatsLine) × (rest : List StatusLine)
      × ((log_status itoa verbose p).1
          ≡ summary
              (pos (sum_conns p.backends))
              (pos (length conns))
              (length p.backends)
              text
              affinity
            ∷ rest)
      × IsDescending conns
      × Perm conns (conns_of_healthy p.backends)
      × Shown itoa conns text
      × (length rest ≡ (if verbose then length p.backends else 0))
      × ((log_status itoa verbose p).0.backends ≡ p.backends)
      × ((log_status itoa verbose p).0.max_conns ≡ p.max_conns)
unfolding log_status
log_status_reports itoa verbose p nat few_conns few =
    let bs = p.backends in
    let same = suffix_of-backends p p.affinity in
    let listed : length (sorted_conns bs) ≡ count_healthy bs =
      length-sort_func (conns_of_healthy bs) ∙ length-conns_of_healthy bs in
    let healthy : (get_status p).healthy_count ≡ pos (length (sorted_conns bs)) =
      get_status-healthy_count p few ∙ ap pos (sym listed) in
    let active = get_status-total_active p (λ i b at. (nat i b at).1) few_conns in
    let (descending, perm, shown) = conns_summary_lists itoa bs nat in
    (
      sorted_conns bs,
      conns_summary itoa bs,
      (affinity_suffix p).1,
      if verbose then backend_lines (affinity_suffix p).0.backends else [],
      cc (active, healthy, get_status-total_count p, same),
      descending,
      perm,
      shown,
      length-rest verbose (affinity_suffix p).0.backends
          ∙ ap (λ xs. if verbose then length xs else 0) same,
      same,
      suffix_of-max_conns p p.affinity,
    )

-- The lines of the reports on a list of pools.
abbrev pub reports : (itoa : ℤ → String) → StatusLogger → List Pool → List StatusLine
reports itoa sl [] = []
reports itoa sl (p ∷ ps) = (log_status itoa sl.verbose p).1 ++ reports itoa sl ps

rounds-reports :
    (itoa : ℤ → String) (sl : StatusLogger) (ps : List Pool) (log : List StatusLine)
    → rounds (round itoa sl) ps log ≡ log ++ reports itoa sl ps
rounds-reports itoa sl [] log = sym (append-nil log)
rounds-reports itoa sl (p ∷ ps) log =
    rounds-reports itoa sl ps (round itoa sl p log)
    ∙ append_assoc log (log_status itoa sl.verbose p).1 (reports itoa sl ps)

-- The status logger makes a report for each timer that fires before its context is done, the initial
-- timer included, on the pool as it is then, and then it returns, whatever comes after.
pub start_logger_stops :
    (itoa : ℤ → String) (sl : StatusLogger) (ps : List Pool) (later : List (Wake Pool))
    (log : List StatusLine)
    → start_logger itoa sl (map tick ps ++ done ∷ later) log ≡ (log ++ reports itoa sl ps, true)
unfolding start_logger
start_logger_stops itoa sl [] later log = ap (λ l. (l, true)) (sym (append-nil log))
start_logger_stops itoa sl (p ∷ ps) later log =
    loop-done (round itoa sl) ps later (round itoa sl p log)
    ∙ ap (λ l. (l, true)) (rounds-reports itoa sl (p ∷ ps) log)
