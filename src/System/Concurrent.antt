-- ===== src/System/Concurrent.antt =====
-- Selection among other goroutines keeps the invariant of System/Invariant.
use go_load_balance.Prelude.{
  ℕ, zero, suc, ◌<◌, ◌≤◌, ◌^◌, ◌≡◌, ◌≢◌, ◌⊎◌, inl, inr, refl, sym, ap, subst, ◌∙◌, ◌++◌, Bool, List,
  [], ◌∷◌, none, some, ℤ, pos, ◌<ℤ◌, ◌≤ℤ◌, pos_part, neg_part, length, modify, get_elem?,
  get_elem?-modify_self, get_elem?-modify_ne, get_elem?_of_lt, length-append, arith, Bool-cases,
  ◌==◌,
}
use go_load_balance.Backend.{Backend, decrement_conns}
use go_load_balance.Health.{handle}
use go_load_balance.Health.Neutral.{handle-active_conns}
use go_load_balance.Pool.{Choice, picked, refused, panicked, ScanState, visit, tie_break, pick}
use go_load_balance.Pool.Choose.{IsIntn, At}
use go_load_balance.Live.{
  Moment, Move, ended, changed, Moves, still, moved, LiveScan, at_end, visited, LiveSelect,
  selected, take_slot_of,
}
use go_load_balance.System.{System}
use go_load_balance.System.Accounting.{release-le}
use go_load_balance.System.Invariant.{Inv, take_slot}
use go_load_balance.System.Steps.{end-Inv, health-Inv}

-- The balancer in mode least-connections at a moment.
abbrev pub at_moment : ℤ → Moment → System
at_moment max_conns n = record {
  pool = record { backends = n.backends; max_conns = max_conns; affinity = none };
  in_flight = n.in_flight;
}

-- Backend `i` is below the cap, if there is one.
abbrev pub Sees : ℤ → Moment → ℕ → Type 0
Sees max_conns n i =
    (b : Backend) × At n.backends i b × (pos 0 <ℤ max_conns → b.active_conns <ℤ max_conns)

abbrev pub AllSeen : ℤ → Moment → List ℕ → Type 0
AllSeen max_conns n [] = Unit {0}
AllSeen max_conns n (i ∷ is) = Sees max_conns n i × AllSeen max_conns n is

module _ (max_conns : ℤ) where
  -- Other goroutines keep the invariant, and no counter rises.
  Move-Inv : (n m : Moment) → Inv (at_moment max_conns n) → Move n m → Inv (at_moment max_conns m)
  Move-Inv n m inv (ended i before after e) = end-Inv (at_moment max_conns n) inv i before after e
  Move-Inv n m inv (changed i e) = health-Inv (at_moment max_conns n) inv i e

  modify-Sees :
      (n : Moment) (fl : List ℕ) (i j : ℕ) (f : Backend → Backend)
      → ((b : Backend) → At n.backends i b → (f b).active_conns ≤ℤ b.active_conns)
      → Sees max_conns n j
      → Sees max_conns (record { backends = modify n.backends i f; in_flight = fl }) j
  modify-Sees n fl i j f le (b, at, below) = elim (Bool-cases (i == j)) [
    | inl own ↦
        let same : i ≡ j = ground arith in
        let here = le b (subst (λ k. At n.backends k b) (sym same) at) in
        (
          f b,
          subst (λ k. At (modify n.backends i f) k (f b)) same
              (get_elem?-modify_self n.backends i f b
                (subst (λ k. At n.backends k b) (sym same) at)),
          λ above. let was = below above in omega arith,
        )
    | inr other ↦ (b, get_elem?-modify_ne n.backends i j f (ground arith) ∙ at, below)
  ]

  Move-Sees :
      (n m : Moment) (j : ℕ)
      → Inv (at_moment max_conns n)
      → Move n m
      → Sees max_conns n j
      → Sees max_conns m j
  Move-Sees n m j inv (ended i before after e) =
      modify-Sees n (before ++ after) i j decrement_conns
        (λ b at. release-le n.backends n.in_flight inv.accounted i before after b e inv.small at)
  Move-Sees n m j inv (changed i e) = modify-Sees n n.in_flight i j (handle e) (λ b at.
      let kept = handle-active_conns e b in omega (arith, ap pos_part kept, ap neg_part kept))

  pub Moves-Inv :
      (n m : Moment) → Inv (at_moment max_conns n) → Moves n m → Inv (at_moment max_conns m)
  Moves-Inv n m inv still = inv
  Moves-Inv n m inv (moved {m = k} ms step) = Move-Inv k m (Moves-Inv n k inv ms) step

  pub Moves-Sees :
      (n m : Moment) (j : ℕ)
      → Inv (at_moment max_conns n)
      → Moves n m
      → Sees max_conns n j
      → Sees max_conns m j
  Moves-Sees n m j inv still sees = sees
  Moves-Sees n m j inv (moved {m = k} ms step) sees =
      Move-Sees k m j (Moves-Inv n k inv ms) step (Moves-Sees n k j inv ms sees)

  pub Moves-AllSeen :
      (n m : Moment) (is : List ℕ)
      → Inv (at_moment max_conns n)
      → Moves n m
      → AllSeen max_conns n is
      → AllSeen max_conns m is
  Moves-AllSeen n m [] inv ms all = tt
  Moves-AllSeen n m (i ∷ is) inv ms (sees, all) =
      (Moves-Sees n m i inv ms sees, Moves-AllSeen n m is inv ms all)

  pub Moves-length : (n m : Moment) → Moves n m → length m.in_flight ≤ length n.in_flight
  Moves-length n m still = omega arith
  Moves-length n m (moved {m = k} ms (ended i before after e)) = omega (
    arith,
    Moves-length n k ms,
    ap length e,
    length-append before (i ∷ after),
    length-append before after,
  )
  Moves-length n m (moved {m = k} ms (changed i e)) = Moves-length n k ms

  AllSeen-append :
      (n : Moment) (is : List ℕ) (i : ℕ)
      → AllSeen max_conns n is
      → Sees max_conns n i
      → AllSeen max_conns n (is ++ i ∷ [])
  AllSeen-append n [] i all sees = (sees, tt)
  AllSeen-append n (j ∷ is) i (first, all) sees = (first, AllSeen-append n is i all sees)

  -- A round adds no backend but the one it reads, and that one only below the cap.
  visit-least :
      (i : ℕ) (b : Backend) (s : ScanState)
      → ((visit max_conns i b s).least ≡ s.least)
        ⊎ ((pos 0 <ℤ max_conns → b.active_conns <ℤ max_conns)
            × (((visit max_conns i b s).least ≡ i ∷ [])
                ⊎ ((visit max_conns i b s).least ≡ s.least ++ i ∷ [])))
  unfolding visit
  visit-least i b s = ground arith

  visit-AllSeen :
      (n : Moment) (i : ℕ) (b : Backend) (h : Bool) (s : ScanState)
      → At n.backends i b
      → AllSeen max_conns n s.least
      → AllSeen max_conns n (visit max_conns i (record b { healthy = h }) s).least
  visit-AllSeen n i b h s at all = elim (visit-least i (record b { healthy = h }) s) [
    | inl same ↦ subst (AllSeen max_conns n) (sym same) all
    | inr (below, inl alone) ↦ subst (AllSeen max_conns n) (sym alone) ((b, at, below), tt)
    | inr (below, inr added) ↦
        subst (AllSeen max_conns n) (sym added) (AllSeen-append n s.least i all (b, at, below))
  ]

  pub LiveScan-sound :
      (i : ℕ) (n k : Moment) (s t : ScanState)
      → Inv (at_moment max_conns n)
      → AllSeen max_conns n s.least
      → LiveScan max_conns i n s k t
      → Inv (at_moment max_conns k)
        × AllSeen max_conns k t.least
        × (length k.in_flight ≤ length n.in_flight)
  LiveScan-sound i n k s t inv all (at_end e) = (inv, all, omega arith)
  LiveScan-sound i n k s t inv all (visited m₁ m₂ b₁ b₂ to₁ at₁ to₂ at₂ rest) =
      let inv₁ = Moves-Inv n m₁ inv to₁ in
      let inv₂ = Moves-Inv m₁ m₂ inv₁ to₂ in
      let all₂ = Moves-AllSeen m₁ m₂ s.least inv₁ to₂ (Moves-AllSeen n m₁ s.least inv to₁ all) in
      let (inv', all', short) =
        LiveScan-sound (suc i) m₂ k (visit max_conns i (record b₂ { healthy = b₁.healthy }) s) t
          inv₂ (visit-AllSeen m₂ i b₂ b₁.healthy s at₂ all₂) rest in
      (inv', all', omega (arith, short, Moves-length n m₁ to₁, Moves-length m₁ m₂ to₂))

  get_elem?-Sees :
      (n : Moment) (is : List ℕ) (j i : ℕ)
      → AllSeen max_conns n is
      → get_elem? is j ≡ some i
      → Sees max_conns n i
  get_elem?-Sees n [] j i all e = cc
  get_elem?-Sees n (i₀ ∷ is) zero i (sees, all) e =
      let same : i₀ ≡ i = cc in subst (Sees max_conns n) same sees
  get_elem?-Sees n (i₀ ∷ is) (suc j) i (sees, all) e = get_elem?-Sees n is j i all e

  pub picked-Inv :
      (n : Moment) (i : ℕ)
      → Inv (at_moment max_conns n)
      → suc (length n.in_flight) < 2 ^ 63
      → Sees max_conns n i
      → Inv (at_moment max_conns (take_slot_of (picked i) n))
  picked-Inv n i inv small (b, at, below) =
      take_slot (at_moment max_conns n) inv i b none small at below (inl refl)

  -- The tie-break does not panic, and picks a backend that the scan has seen.
  pub tie_break-Sees :
      (intn : ℕ → ℕ) (n : Moment) (any_healthy : Bool) (least : List ℕ)
      → IsIntn intn
      → AllSeen max_conns n least
      → (tie_break intn any_healthy least ≢ panicked)
        × ((l : ℕ) → tie_break intn any_healthy least ≡ picked l → Sees max_conns n l)
  unfolding tie_break
  tie_break-Sees intn n any_healthy [] random all = (λ e. cc, λ l e. cc)
  tie_break-Sees intn n any_healthy (i ∷ is) random all =
      let (j, found) =
        get_elem?_of_lt (i ∷ is) (intn (length (i ∷ is)))
          (random (length (i ∷ is)) (omega arith)) in
      (
        λ e. cc (sym (ap pick found) ∙ e),
        λ l e.
            let same : j ≡ l = cc (sym (ap pick found) ∙ e) in
            subst (Sees max_conns n) same (get_elem?-Sees n (i ∷ is) _ j all found),
      )

  choice-Inv :
      (n : Moment) (c : Choice)
      → Inv (at_moment max_conns n)
      → suc (length n.in_flight) < 2 ^ 63
      → ((l : ℕ) → c ≡ picked l → Sees max_conns n l)
      → Inv (at_moment max_conns (take_slot_of c n))
  choice-Inv n (picked l) inv small sees = picked-Inv n l inv small (sees l refl)
  choice-Inv n (refused e) inv small sees = inv
  choice-Inv n panicked inv small sees = inv

  -- Between the reads of a `SelectBackend`, and before it takes its slot, any requests end and any
  -- changes of health happen. Suppose that each counter is the number of requests in flight on its
  -- backend and, where the cap is above 0, at most the cap; that one more request leaves fewer than
  -- 2 ^ 63 in flight; and that `rand.Intn` returns a number in its range. Then the counters are so
  -- after the call as well, with the slot that it took, and the call does not panic.
  pub LiveSelect-Inv :
      (intn : ℕ → ℕ) (n k : Moment) (c : Choice)
      → IsIntn intn
      → Inv (at_moment max_conns n)
      → suc (length n.in_flight) < 2 ^ 63
      → LiveSelect intn max_conns n k c
      → Inv (at_moment max_conns k) × (c ≢ panicked)
  LiveSelect-Inv intn n k c random inv small (selected {m} {k = k₀} {t} scan to) =
      let (inv₁, all₁, short₁) = LiveScan-sound 0 n m _ t inv tt scan in
      let (ok, sees) =
        tie_break-Sees intn k₀ t.any_healthy t.least random
          (Moves-AllSeen m k₀ t.least inv₁ to all₁) in
      (
        choice-Inv k₀ (tie_break intn t.any_healthy t.least) (Moves-Inv m k₀ inv₁ to)
            (omega (arith, short₁, Moves-length m k₀ to)) sees,
        ok,
      )
