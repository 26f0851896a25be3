-- ===== src/Pool/Choose.antt =====
-- What `leastConnLocked` selects, and when it refuses.
use go_load_balance.Prelude.{
  ℕ, zero, suc, ◌+◌, ◌<◌, ◌≡◌, inl, inr, refl, sym, ap, subst, ◌∙◌, Bool, true, false, List, [],
  ◌∷◌, Option, none, some, ℤ, ◌≤ℤ◌, max_int, IsInt, length, get_elem?, get_elem?_of_lt,
  lt_of_get_elem?, eq_of_parts, arith, Bool-cases,
}
use go_load_balance.Backend.{Backend}
use go_load_balance.Pool.Scan.{
  is_eligible, min_over, at_min, any_healthy_of, two_passes, scan-two_passes,
}
use go_load_balance.Pool.Minimum.{
  min_over-le_eligible, min_over_attained, at_min_sound, at_min_complete,
}
use go_load_balance.Pool.{
  Pool, Choice, picked, refused, pick, no_healthy_backends, at_capacity, tie_break,
  least_conn_locked,
}

-- `rand.Intn(n)` lies in [0, n) for every n > 0.
abbrev pub IsIntn : (ℕ → ℕ) → Type 0
IsIntn intn = (n : ℕ) → 0 < n → intn n < n

abbrev pub At : List Backend → ℕ → Backend → Type 0
At bs i b = get_elem? bs i ≡ some b

-- Every counter holds an `int`.
abbrev pub CountsFit : List Backend → Type 0
CountsFit bs = (i : ℕ) (b : Backend) → At bs i b → IsInt b.active_conns

abbrev pub NoneEligible : ℤ → List Backend → Type 0
NoneEligible max_conns bs = (i : ℕ) (b : Backend) → At bs i b → is_eligible max_conns b ≡ false

-- An eligible backend with the fewest connections of all that are.
pub record IsLeast (max_conns : ℤ) (bs : List Backend) (i : ℕ) (b : Backend) : Type 0 where
  pub at : At bs i b
  pub eligible : is_eligible max_conns b ≡ true
  pub least :
      (j : ℕ) (c : Backend)
      → At bs j c
      → is_eligible max_conns c ≡ true
      → b.active_conns ≤ℤ c.active_conns

-- The promise of `leastConnLocked`.
pub data Chosen (max_conns : ℤ) (bs : List Backend) : Choice → Type 0 where
  least_of : {i : ℕ} (b : Backend) → IsLeast max_conns bs i b → Chosen max_conns bs (picked i)
  all_full :
      (i : ℕ) (b : Backend)
      → At bs i b
      → b.healthy ≡ true
      → NoneEligible max_conns bs
      → Chosen max_conns bs (refused at_capacity)
  all_down :
      ((i : ℕ) (b : Backend) → At bs i b → b.healthy ≡ false)
      → Chosen max_conns bs (refused no_healthy_backends)

any_healthy_of_sound :
    (bs : List Backend)
    → any_healthy_of bs ≡ true
    → (i : ℕ) × (b : Backend) × At bs i b × (b.healthy ≡ true)
unfolding any_healthy_of
any_healthy_of_sound [] h = cc
any_healthy_of_sound (b ∷ bs) h = elim (Bool-cases b.healthy) [
  | inl up ↦ (0, b, refl, up)
  | inr down ↦ let (i, c, at, up) = any_healthy_of_sound bs (rw down at h) in (suc i, c, at, up)
]

any_healthy_of_complete :
    (bs : List Backend)
    → any_healthy_of bs ≡ false
    → (i : ℕ) (b : Backend) → At bs i b
    → b.healthy ≡ false
unfolding any_healthy_of
any_healthy_of_complete [] h i b at = cc
any_healthy_of_complete (c ∷ bs) h zero b at = ground arith
any_healthy_of_complete (c ∷ bs) h (suc i) b at = any_healthy_of_complete bs (ground arith) i b at

-- The candidates for the tie-break.
pub candidates : ℤ → List Backend → List ℕ
candidates max_conns bs = at_min max_conns (min_over max_conns max_int bs) 0 bs

least_conn_locked-tie_break :
    (intn : ℕ → ℕ) (p : Pool)
    → least_conn_locked intn p
      ≡ tie_break intn (any_healthy_of p.backends) (candidates p.max_conns p.backends)
unfolding least_conn_locked two_passes candidates
least_conn_locked-tie_break intn p = rw (scan-two_passes p.max_conns 0 p.backends _) (ground arith)

int-le-max : (z : ℤ) → IsInt z → z ≤ℤ max_int
int-le-max z h = omega arith

not_in_nil : (k j : ℕ) → ¬ (get_elem? {A = ℕ} [] k ≡ some j)
not_in_nil k j h = cc

tie_break_const :
    (k i : ℕ) (up : Bool) (cs : List ℕ)
    → get_elem? cs k ≡ some i
    → tie_break (λ _. k) up cs ≡ picked i
unfolding tie_break
tie_break_const k i up [] h = cc
tie_break_const k i up (c ∷ cs) h = ap pick h

module _ (max_conns : ℤ) (bs : List Backend) where
  pub candidates-IsLeast :
      (k i : ℕ)
      → get_elem? (candidates max_conns bs) k ≡ some i
      → (b : Backend) × IsLeast max_conns bs i b
  unfolding candidates
  candidates-IsLeast k i h =
      let (d, b, e, at, ok, same) = at_min_sound max_conns _ 0 bs k i h in
      (
        b,
        record {
          at = subst (λ j. At bs j b) (omega arith) at;
          eligible = ok;
          least = λ j c at_j ok_j.
              subst (λ z. z ≤ℤ c.active_conns) (sym same)
                (min_over-le_eligible max_conns max_int bs j c at_j ok_j);
        },
      )

  pub candidates_complete :
      CountsFit bs
      → (i : ℕ) (b : Backend) → IsLeast max_conns bs i b
      → (k : ℕ) × (get_elem? (candidates max_conns bs) k ≡ some i)
  unfolding candidates
  candidates_complete fit i b l =
      let low = min_over-le_eligible max_conns max_int bs i b l.at l.eligible in
      let high : b.active_conns ≤ℤ min_over max_conns max_int bs =
        elim (min_over_attained max_conns max_int bs) [
          | inl e ↦
              subst (λ z. b.active_conns ≤ℤ z) (sym e) (int-le-max b.active_conns (fit i b l.at))
          | inr (j, c, at, ok, e) ↦ subst (λ z. b.active_conns ≤ℤ z) e (l.least j c at ok)
        ] in
      let (k, found) =
        at_min_complete max_conns _ 0 bs i b l.at l.eligible
          (eq_of_parts b.active_conns (min_over max_conns max_int bs) (omega arith)) in
      (k, found ∙ ap some (omega arith))

  -- If any backend is eligible, there is a candidate.
  candidates_exist :
      CountsFit bs
      → (i : ℕ) (b : Backend) → At bs i b
      → is_eligible max_conns b ≡ true
      → (k j : ℕ) × (get_elem? (candidates max_conns bs) k ≡ some j)
  unfolding candidates
  candidates_exist fit i b at ok = elim (min_over_attained max_conns max_int bs) [
    | inl e ↦
        let low : max_int ≤ℤ b.active_conns =
          subst (λ z. z ≤ℤ b.active_conns) e
            (min_over-le_eligible max_conns max_int bs i b at ok) in
        let same : b.active_conns ≡ max_int =
          eq_of_parts b.active_conns max_int
            (omega (arith, int-le-max b.active_conns (fit i b at))) in
        let (k, found) = at_min_complete max_conns _ 0 bs i b at ok (same ∙ sym e) in
        (k, 0 + i, found)
    | inr (j, c, at_j, ok_j, e) ↦
        let (k, found) = at_min_complete max_conns _ 0 bs j c at_j ok_j e in (k, 0 + j, found)
  ]

  candidates-nil : CountsFit bs → candidates max_conns bs ≡ [] → NoneEligible max_conns bs
  candidates-nil fit e i b at = elim (Bool-cases (is_eligible max_conns b)) [
    | inl ok ↦
        let (k, j, found) = candidates_exist fit i b at ok in
        absurd (not_in_nil k j (rw e at found))
    | inr out ↦ out
  ]

pick-Chosen :
    (max_conns : ℤ) (bs : List Backend) (o : Option ℕ) (k : ℕ)
    → o ≡ get_elem? (candidates max_conns bs) k
    → k < length (candidates max_conns bs)
    → Chosen max_conns bs (pick o)
pick-Chosen max_conns bs none k e lt =
    let (i, found) = get_elem?_of_lt (candidates max_conns bs) k lt in cc
pick-Chosen max_conns bs (some i) k e lt =
    let (b, l) = candidates-IsLeast max_conns bs k i (sym e) in least_of b l

tie_break-Chosen :
    (intn : ℕ → ℕ) (max_conns : ℤ) (bs : List Backend) (cs : List ℕ)
    → IsIntn intn
    → CountsFit bs
    → candidates max_conns bs ≡ cs
    → Chosen max_conns bs (tie_break intn (any_healthy_of bs) cs)
unfolding tie_break
tie_break-Chosen intn max_conns bs [] random fit e = elim (Bool-cases (any_healthy_of bs)) [
  | inl up ↦
      let (i, b, at, healthy) = any_healthy_of_sound bs up in
      rw up (all_full i b at healthy (candidates-nil max_conns bs fit e))
  | inr down ↦ rw down (all_down (any_healthy_of_complete bs down))
]
tie_break-Chosen intn max_conns bs (i ∷ is) random fit e =
    pick-Chosen max_conns bs _ (intn (length (i ∷ is)))
      (ap (λ cs. get_elem? cs (intn (length (i ∷ is)))) (sym e))
      (subst (λ cs. intn (length (i ∷ is)) < length cs) (sym e)
        (random (length (i ∷ is)) (omega arith)))

-- On counters that fit an `int`, and whatever number below `n` each `rand.Intn(n)` returns,
-- `leastConnLocked` never indexes out of range: it returns a healthy backend below the cap that
-- has the fewest connections of all such backends; `errAtCapacity` if some backend is healthy and
-- every healthy one is at the cap; and `errNoHealthyBackends` if none is healthy.
pub least_conn_locked-Chosen :
    (intn : ℕ → ℕ) (p : Pool)
    → IsIntn intn
    → CountsFit p.backends
    → Chosen p.max_conns p.backends (least_conn_locked intn p)
least_conn_locked-Chosen intn p random fit =
    rw (least_conn_locked-tie_break intn p)
      (tie_break-Chosen intn p.max_conns p.backends _ random fit refl)

-- Every backend with the fewest connections can win the tie-break: some value of `rand.Intn`
-- within its range makes `leastConnLocked` return it.
pub least_conn_locked_reaches :
    (p : Pool) (i : ℕ) (b : Backend)
    → CountsFit p.backends
    → IsLeast p.max_conns p.backends i b
    → (k : ℕ) × (k < length (candidates p.max_conns p.backends))
      × (least_conn_locked (λ _. k) p ≡ picked i)
least_conn_locked_reaches p i b fit l =
    let (k, found) = candidates_complete p.max_conns p.backends fit i b l in
    (
      k,
      lt_of_get_elem? (candidates p.max_conns p.backends) k i found,
      rw (least_conn_locked-tie_break (λ _. k) p) (tie_break_const k i _ _ found),
    )
