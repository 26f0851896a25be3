-- ===== src/HealthChecker/Rounds.antt =====
-- The loop of the health checker (lib/healthcheck.go, `Start`).
use go_load_balance.Prelude.{ℕ, suc, ◌≡◌, refl, ap, ◌∙◌, true, List, [], ◌∷◌, ◌++◌, map, length}
use go_load_balance.Backend.{Backend}
use go_load_balance.Ticker.{Wake, tick, done, loop-done, rounds}
use go_load_balance.HealthChecker.{Probe, Sweep, sweep, start}
use go_load_balance.HealthChecker.Sweeps.{OncePerBackend, check_each, check_all_any_order}

-- Each of the sweeps has one goroutine for each of `n` backends.
abbrev pub AllOnce : ℕ → List Sweep → Type 0
AllOnce n [] = Unit {0}
AllOnce n (w ∷ ws) = OncePerBackend n w.order × AllOnce n ws

-- A sweep in the order of the pool.
abbrev pub sweep_in_order : Sweep → List Backend → List Backend
sweep_in_order w bs = check_each w.probes 0 bs

length-check_each :
    (probes : ℕ → Probe) (i : ℕ) (bs : List Backend) → length (check_each probes i bs) ≡ length bs
length-check_each probes i [] = refl
length-check_each probes i (b ∷ bs) = ap suc (length-check_each probes (suc i) bs)

rounds-in_order :
    (ws : List Sweep) (bs : List Backend)
    → AllOnce (length bs) ws
    → rounds sweep ws bs ≡ rounds sweep_in_order ws bs
rounds-in_order [] bs once = refl
rounds-in_order (w ∷ ws) bs (now, later) =
    ap (rounds sweep ws) (check_all_any_order w.probes w.order bs now).0
    ∙ rounds-in_order ws (check_each w.probes 0 bs) (rw (length-check_each w.probes 0 bs) later)

-- The health checker sweeps once at its start and once at each tick before its context is done, and
-- then it returns, whatever comes after; with one goroutine for each backend in every sweep, the
-- backends are those of the same sweeps in the order of the pool.
pub start_stops :
    (first : Sweep) (ws : List Sweep) (later : List (Wake Sweep)) (bs : List Backend)
    → AllOnce (length bs) (first ∷ ws)
    → start first (map tick ws ++ done ∷ later) bs ≡ (rounds sweep_in_order (first ∷ ws) bs, true)
unfolding start
start_stops first ws later bs once =
    loop-done sweep ws later (sweep first bs)
    ∙ ap (λ r. (r, true)) (rounds-in_order (first ∷ ws) bs once)
