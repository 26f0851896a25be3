-- ===== src/Pool/Scan.antt =====
-- The one pass of `leastConnLocked` against its description in two passes.
use go_load_balance.Prelude.{
  ℕ, suc, ◌≡◌, ap, ◌∙◌, Bool, false, ◌&&◌, ◌||◌, not, List, [], ◌∷◌, ◌++◌, ℤ, pos, ltb_ℤ, leb_ℤ,
  eqb_ℤ, if◌then◌else◌, arith, append_assoc, append-nil, ◌≤ℤ◌,
}
use go_load_balance.Backend.{Backend}
use go_load_balance.Pool.{ScanState, visit, scan}

-- Healthy and below the cap, where there is one.
abbrev pub is_eligible : ℤ → Backend → Bool
is_eligible max_conns b =
    b.healthy && not (ltb_ℤ (pos 0) max_conns && leb_ℤ max_conns b.active_conns)

-- The fewest connections of an eligible backend, and no more than `m`.
unfoldable pub min_over : ℤ → ℤ → List Backend → ℤ
min_over max_conns m [] = m
min_over max_conns m (b ∷ bs) =
    min_over max_conns
      (if is_eligible max_conns b && ltb_ℤ b.active_conns m then b.active_conns else m) bs

-- The eligible backends with exactly `m` connections, by index.
unfoldable pub at_min : ℤ → ℤ → ℕ → List Backend → List ℕ
at_min max_conns m i [] = []
at_min max_conns m i (b ∷ bs) =
    let rest = at_min max_conns m (suc i) bs in
    if is_eligible max_conns b && eqb_ℤ b.active_conns m then i ∷ rest else rest

unfoldable pub any_healthy_of : List Backend → Bool
any_healthy_of [] = false
any_healthy_of (b ∷ bs) = b.healthy || any_healthy_of bs

pub min_over-le : (max_conns m : ℤ) (bs : List Backend) → min_over max_conns m bs ≤ℤ m
unfolding min_over
min_over-le max_conns m [] = omega arith
min_over-le max_conns m (b ∷ bs) =
    ground (arith, min_over-le max_conns m bs, min_over-le max_conns b.active_conns bs)

-- One round of the loop, against the two passes over the rest with the same minimum `m`.
visit-at_min :
    (max_conns : ℤ) (i : ℕ) (b : Backend) (s : ScanState) (m : ℤ) (rest : List ℕ)
    → m ≤ℤ (visit max_conns i b s).min_conns
    → (if ltb_ℤ m (visit max_conns i b s).min_conns then [] else (visit max_conns i b s).least)
        ++ rest
      ≡ (if ltb_ℤ m s.min_conns then [] else s.least)
        ++ (if is_eligible max_conns b && eqb_ℤ b.active_conns m then i ∷ rest else rest)
unfolding visit
visit-at_min max_conns i b s m rest h = ground (arith, append_assoc s.least (i ∷ []) rest)

visit-min_conns :
    (max_conns : ℤ) (i : ℕ) (b : Backend) (s : ScanState)
    → (visit max_conns i b s).min_conns ≡ (
        if is_eligible max_conns b && ltb_ℤ b.active_conns s.min_conns
        then b.active_conns
        else s.min_conns)
unfolding visit
visit-min_conns max_conns i b s = ground arith

visit-any_healthy :
    (max_conns : ℤ) (i : ℕ) (b : Backend) (s : ScanState)
    → (visit max_conns i b s).any_healthy ≡ (s.any_healthy || b.healthy)
unfolding visit
visit-any_healthy max_conns i b s = ground arith

or_assoc : (a b c : Bool) → ((a || b) || c) ≡ (a || (b || c))
or_assoc a b c = ground arith

-- What the loop leaves after a start at `s`, if `m` is the fewest connections.
unfoldable pub two_passes : ℤ → ℕ → List Backend → ScanState → ℤ → ScanState
two_passes max_conns i bs s m = record {
  min_conns = m;
  least = (if ltb_ℤ m s.min_conns then [] else s.least) ++ at_min max_conns m i bs;
  any_healthy = s.any_healthy || any_healthy_of bs;
}

two_passes-visit :
    (max_conns : ℤ) (i : ℕ) (b : Backend) (bs : List Backend) (s : ScanState) (m : ℤ)
    → m ≤ℤ (visit max_conns i b s).min_conns
    → two_passes max_conns (suc i) bs (visit max_conns i b s) m
      ≡ two_passes max_conns i (b ∷ bs) s m
unfolding two_passes at_min any_healthy_of
two_passes-visit max_conns i b bs s m h = λ j. record {
  min_conns = m;
  least = visit-at_min max_conns i b s m (at_min max_conns m (suc i) bs) h j;
  any_healthy =
      (ap (λ a. a || any_healthy_of bs) (visit-any_healthy max_conns i b s)
          ∙ or_assoc s.any_healthy b.healthy (any_healthy_of bs))
        j;
}

scan_end :
    (max_conns : ℤ) (i : ℕ) (s : ScanState)
    → s ≡ two_passes max_conns i [] s (min_over max_conns s.min_conns [])
unfolding two_passes min_over at_min any_healthy_of
scan_end max_conns i s = ground (arith, append-nil s.least)

min_over-visit :
    (max_conns : ℤ) (i : ℕ) (b : Backend) (bs : List Backend) (s : ScanState)
    → min_over max_conns (visit max_conns i b s).min_conns bs
      ≡ min_over max_conns s.min_conns (b ∷ bs)
unfolding min_over
min_over-visit max_conns i b bs s =
    ap (λ m. min_over max_conns m bs) (visit-min_conns max_conns i b s)

pub scan-two_passes :
    (max_conns : ℤ) (i : ℕ) (bs : List Backend) (s : ScanState)
    → scan max_conns i bs s ≡ two_passes max_conns i bs s (min_over max_conns s.min_conns bs)
unfolding scan
scan-two_passes max_conns i [] s = scan_end max_conns i s
scan-two_passes max_conns i (b ∷ bs) s =
    let v = visit max_conns i b s in
    scan-two_passes max_conns (suc i) bs v
    ∙ two_passes-visit max_conns i b bs s _ (min_over-le max_conns v.min_conns bs)
    ∙ ap (two_passes max_conns i (b ∷ bs) s) (min_over-visit max_conns i b bs s)
