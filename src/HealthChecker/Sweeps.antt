-- ===== src/HealthChecker/Sweeps.antt =====
-- A sweep over all backends, in whatever order its goroutines run (lib/healthcheck.go, `checkAll`).
use go_load_balance.Prelude.{
  ℕ, zero, suc, ◌+◌, ◌<◌, ◌≡◌, ◌≢◌, inl, inr, refl, sym, ap, ap₂, subst, ◌∙◌, List, [], ◌∷◌, ◌++◌,
  map, Option, none, some, length, get_elem?, modify, ◌==◌, if◌then◌else◌, arith, Bool-cases,
  append-nil, get_elem?-modify_self, get_elem?-modify_ne, get_elem?-ext, lt_of_get_elem?,
  get_elem?_of_ge, ge_of_get_elem?, length-modify, count,
}
use mathlib.Core.Option
use go_load_balance.Backend.{Backend, LogLine}
use go_load_balance.HealthChecker.{Probe, check_backend, checked, probe_at, check_all}

-- One goroutine for each of `n` backends.
abbrev pub OncePerBackend : ℕ → List ℕ → Type 0
OncePerBackend n order = (i : ℕ) → i < n → count i order ≡ 1

-- The backends after a sweep in the order of the pool.
abbrev pub check_each : (probes : ℕ → Probe) → ℕ → List Backend → List Backend
check_each probes i [] = []
check_each probes i (b ∷ bs) = (check_backend (probes i) b).0 ∷ check_each probes (suc i) bs

-- The lines of one goroutine.
abbrev pub lines : ℕ → List (ℕ × LogLine) → List LogLine
lines i [] = []
lines i ((j, l) ∷ log) = if j == i then l ∷ lines i log else lines i log

lines-append : (i : ℕ) (xs ys : List (ℕ × LogLine)) → lines i (xs ++ ys) ≡ lines i xs ++ lines i ys
lines-append i [] ys = refl
lines-append i ((j, l) ∷ xs) ys = ground (arith, lines-append i xs ys)

lines_own : (i : ℕ) (ls : List LogLine) → lines i (map (λ l. (i, l)) ls) ≡ ls
lines_own i [] = refl
lines_own i (l ∷ ls) = ground (arith, lines_own i ls)

lines_other : (i j : ℕ) (ls : List LogLine) → j ≢ i → lines i (map (λ l. (j, l)) ls) ≡ []
lines_other i j [] ne = refl
lines_other i j (l ∷ ls) ne = ground (arith, lines_other i j ls ne)

lines-checked_other :
    (i j : ℕ) (o : Option (Backend × List LogLine)) → j ≢ i → lines i (checked j o) ≡ []
lines-checked_other i j none ne = refl
lines-checked_other i j (some (b, ls)) ne = lines_other i j ls ne

module _ (probes : ℕ → Probe) where
  -- What the sweep leaves of a backend: what it was if no goroutine is for it.
  untouched :
      (order : List ℕ) (bs : List Backend) (i : ℕ)
      → count i order ≡ 0
      → (get_elem? (check_all probes order bs).0 i ≡ get_elem? bs i)
        × (lines i (check_all probes order bs).1 ≡ [])
  unfolding check_all
  untouched [] bs i none_for = (refl, refl)
  untouched (j ∷ order) bs i none_for =
      let ne : j ≢ i = ground arith in
      let (same, silent) =
        untouched order (modify bs j (λ b. (check_backend (probes j) b).0)) i (ground arith) in
      (
        same ∙ get_elem?-modify_ne bs j i (λ b. (check_backend (probes j) b).0) ne,
        lines-append i (checked j (probe_at probes j bs)) _
            ∙ ap₂ ◌++◌ (lines-checked_other i j (probe_at probes j bs) ne) silent,
      )

  -- And the checked backend, with the lines of the check, if one is.
  checked_once :
      (order : List ℕ) (bs : List Backend) (i : ℕ) (b : Backend)
      → count i order ≡ 1
      → get_elem? bs i ≡ some b
      → (get_elem? (check_all probes order bs).0 i ≡ some (check_backend (probes i) b).0)
        × (lines i (check_all probes order bs).1 ≡ (check_backend (probes i) b).1)
  unfolding check_all
  checked_once [] bs i b once at = absurd (omega (arith, once))
  checked_once (j ∷ order) bs i b once at = elim (Bool-cases (j == i)) [
    | inl own ↦
        let same : j ≡ i = ground arith in
        let (kept, silent) =
          untouched order (modify bs j (λ b. (check_backend (probes j) b).0)) i (ground arith) in
        (
          kept
              ∙ subst
                  (λ k.
                    get_elem? (modify bs j (λ b. (check_backend (probes j) b).0)) k
                    ≡ some (check_backend (probes k) b).0)
                  same
                  (get_elem?-modify_self bs j (λ b. (check_backend (probes j) b).0) b
                    (ap (get_elem? bs) same ∙ at)),
          lines-append i (checked j (probe_at probes j bs)) _
              ∙ ap₂ ◌++◌
                  (subst
                    (λ k.
                      lines i (checked k (probe_at probes k bs)) ≡ (check_backend (probes i) b).1)
                    (sym same)
                    (ap (λ o. lines i (checked i (Option.map (check_backend (probes i)) o))) at
                      ∙ lines_own i (check_backend (probes i) b).1))
                  silent
              ∙ append-nil _,
        )
    | inr other ↦
        let ne : j ≢ i = ground arith in
        let (result, log) =
          checked_once order (modify bs j (λ b. (check_backend (probes j) b).0)) i b (ground arith)
            (get_elem?-modify_ne bs j i (λ b. (check_backend (probes j) b).0) ne ∙ at) in
        (
          result,
          lines-append i (checked j (probe_at probes j bs)) _
              ∙ ap₂ ◌++◌ (lines-checked_other i j (probe_at probes j bs) ne) log,
        )
  ]

  length-check_all :
      (order : List ℕ) (bs : List Backend) → length (check_all probes order bs).0 ≡ length bs
  unfolding check_all
  length-check_all [] bs = refl
  length-check_all (j ∷ order) bs =
      length-check_all order (modify bs j (λ b. (check_backend (probes j) b).0))
      ∙ length-modify bs j (λ b. (check_backend (probes j) b).0)

  get_elem?-check_each :
      (k i : ℕ) (bs : List Backend)
      → get_elem? (check_each probes k bs) i
        ≡ Option.map (λ b. (check_backend (probes (k + i)) b).0) (get_elem? bs i)
  get_elem?-check_each k i [] = refl
  get_elem?-check_each k zero (b ∷ bs) = ap (λ n. some (check_backend (probes n) b).0) (omega arith)
  get_elem?-check_each k (suc i) (b ∷ bs) =
      get_elem?-check_each (suc k) i bs
      ∙ ap (λ n. Option.map (λ c. (check_backend (probes n) c).0) (get_elem? bs i)) (omega arith)

  get_elem?-check_all :
      (order : List ℕ) (bs : List Backend) (i : ℕ) (o : Option Backend)
      → OncePerBackend (length bs) order
      → get_elem? bs i ≡ o
      → get_elem? (check_all probes order bs).0 i
        ≡ Option.map (λ b. (check_backend (probes i) b).0) o
  get_elem?-check_all order bs i none once at =
      get_elem?_of_ge (check_all probes order bs).0 i
        (omega (arith, ge_of_get_elem? bs i at, length-check_all order bs))
  get_elem?-check_all order bs i (some b) once at =
      (checked_once order bs i b (once i (lt_of_get_elem? bs i b at)) at).0

  -- Whatever the order in which the goroutines of a sweep run, one for each backend, the sweep
  -- leaves the pool that checking the backends one after the other leaves, and the log has for each
  -- backend the lines of its own check.
  pub check_all_any_order :
      (order : List ℕ) (bs : List Backend)
      → OncePerBackend (length bs) order
      → ((check_all probes order bs).0 ≡ check_each probes 0 bs)
        × ((i : ℕ) (b : Backend)
            → get_elem? bs i ≡ some b
            → lines i (check_all probes order bs).1 ≡ (check_backend (probes i) b).1)
  check_all_any_order order bs once = (
    get_elem?-ext _ _ (λ i.
        get_elem?-check_all order bs i (get_elem? bs i) once refl
        ∙ sym (
            get_elem?-check_each 0 i bs
            ∙ ap (λ n. Option.map (λ b. (check_backend (probes n) b).0) (get_elem? bs i))
                (omega arith))),
    λ i b at. (checked_once order bs i b (once i (lt_of_get_elem? bs i b at)) at).1,
  )
