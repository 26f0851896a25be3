-- ===== src/Routing/Guard.antt =====
-- The load guard: where a request may go, whatever its pin says.
use go_load_balance.Prelude.{
  ℕ, ◌<◌, ◌^◌, ◌≡◌, inl, inr, refl, subst, true, false, List, Option, none, some, ℤ, pos, pos_part,
  neg_part, ◌≤ℤ◌, ◌<ℤ◌, ◌-ℤ◌, -ℤ_parts, to_int, to_int_of_fits, leb_ℤ, int_laws, arith, Bool-cases,
  ◌||◌,
}
use go_load_balance.Backend.{Backend}
use go_load_balance.Pool.Choose.{At, IsLeast, Chosen, least_of, all_full, all_down}
use go_load_balance.Pool.Reserve.{IsLeast-le_healthy, eligible-lt_cap}
use go_load_balance.Pool.{Choice, picked, refused, SelectError}
use go_load_balance.Routing.{
  Route, warm, cold, overflow, failed, scale, leads_too_far, with_pinned, route,
}

-- A counter is an `int` that is not negative.
abbrev pub CountsNat : List Backend → Type 0
CountsNat bs =
    (i : ℕ) (b : Backend)
    → At bs i b
    → (pos_part b.active_conns < 2 ^ 63) × (neg_part b.active_conns ≡ 0)

-- Backend `i` may serve: it is healthy and below the cap, and leads no healthy backend by more
-- than a fifth of the cap.
pub record Admits (max_conns : ℤ) (bs : List Backend) (i : ℕ) (b : Backend) : Type 0 where
  pub at : At bs i b
  pub healthy : b.healthy ≡ true
  pub below_cap : b.active_conns <ℤ max_conns
  pub not_ahead :
      (j : ℕ) (c : Backend)
      → At bs j c
      → c.healthy ≡ true
      → scale 5 (b.active_conns -ℤ c.active_conns) ≤ℤ max_conns

-- The five ways out, with what they promise.
pub data RouteOk (max_conns : ℤ) (bs : List Backend) : Route → Type 0 where
  warm_ok : {i : ℕ} (b : Backend) → Admits max_conns bs i b → RouteOk max_conns bs (warm i)
  cold_ok : {i : ℕ} (b : Backend) → Admits max_conns bs i b → RouteOk max_conns bs (cold i)
  overflow_ok : {i : ℕ} (b : Backend) → Admits max_conns bs i b → RouteOk max_conns bs (overflow i)
  failed_ok : {e : SelectError} → Chosen max_conns bs (refused e) → RouteOk max_conns bs (failed e)

scale-mono : (a b c m : ℤ) → b ≤ℤ c → scale 5 (a -ℤ b) ≤ℤ m → scale 5 (a -ℤ c) ≤ℤ m
scale-mono a b c m h k = ground (arith, -ℤ_parts a b, -ℤ_parts a c)

scale_of_le : (a c m : ℤ) → a ≤ℤ c → pos 0 <ℤ m → scale 5 (a -ℤ c) ≤ℤ m
scale_of_le a c m h k = ground (arith, -ℤ_parts a c)

module _ (max_conns : ℤ) (capped : pos 0 <ℤ max_conns) (bs : List Backend)
    (nat : CountsNat bs) where
  least-Admits : (i : ℕ) (b : Backend) → IsLeast max_conns bs i b → Admits max_conns bs i b
  least-Admits i b l = record {
    at = l.at;
    healthy = ground (arith, l.eligible);
    below_cap = eligible-lt_cap max_conns b capped l.eligible;
    not_ahead = λ j c at up.
        scale_of_le b.active_conns c.active_conns max_conns
          (IsLeast-le_healthy max_conns bs i j b c l at up) capped;
  }

  pinned-Admits :
      (i l : ℕ) (b least : Backend)
      → At bs i b
      → b.healthy ≡ true
      → IsLeast max_conns bs l least
      → leb_ℤ max_conns b.active_conns ≡ false
      → leads_too_far max_conns (to_int (b.active_conns -ℤ least.active_conns)) ≡ false
      → Admits max_conns bs i b
  pinned-Admits i l b least at up is_least below close = record {
    at = at;
    healthy = up;
    below_cap = ground arith;
    not_ahead = λ j c at_j up_j.
        scale-mono b.active_conns least.active_conns c.active_conns max_conns
          (IsLeast-le_healthy max_conns bs l j least c is_least at_j up_j) near;
  }
    where
      exact : to_int (b.active_conns -ℤ least.active_conns) ≡ b.active_conns -ℤ least.active_conns
      exact = to_int_of_fits _ (omega (int_laws, nat i b at, nat l least is_least.at))

      near : scale 5 (b.active_conns -ℤ least.active_conns) ≤ℤ max_conns
      near = subst (λ z. scale 5 z ≤ℤ max_conns) exact (ground arith)

  with_pinned-RouteOk :
      (i l : ℕ) (b least : Backend)
      → At bs i b
      → b.healthy ≡ true
      → IsLeast max_conns bs l least
      → RouteOk max_conns bs (with_pinned max_conns i (picked l) (some b) (some least))
  with_pinned-RouteOk i l b least at up is_least =
      elim (Bool-cases (
        leb_ℤ max_conns b.active_conns
        || leads_too_far max_conns (to_int (b.active_conns -ℤ least.active_conns)))) [
          | inl over ↦ rw over (overflow_ok least (least-Admits l least is_least))
          | inr stays ↦
              rw stays
                (warm_ok b (pinned-Admits i l b least at up is_least (ground arith) (ground arith)))
        ]

  -- A refusal leaves no room on the pinned backend either.
  refused-full :
      (e : SelectError) (i : ℕ) (b : Backend)
      → Chosen max_conns bs (refused e)
      → At bs i b
      → b.healthy ≡ true
      → leb_ℤ max_conns b.active_conns ≡ true
  refused-full e i b (all_full j c at_c up_c none_eligible) at up =
      let out = none_eligible i b at in ground arith
  refused-full e i b (all_down down) at up = let is_down = down i b at in ground arith

  -- Whatever the pin, the route keeps the load guard, and is an error only if
  -- `leastConnLocked` refuses.
  pub route-RouteOk :
      (least : Choice) (pin : Option ℕ)
      → Chosen max_conns bs least
      → ((i : ℕ) → pin ≡ some i → (b : Backend) × At bs i b × (b.healthy ≡ true))
      → RouteOk max_conns bs (route max_conns bs least pin)
  unfolding route
  route-RouteOk least none (least_of {i} c l) pinned = cold_ok c (least-Admits i c l)
  route-RouteOk least none (all_full i b at up none_eligible) pinned =
      failed_ok (all_full i b at up none_eligible)
  route-RouteOk least none (all_down down) pinned = failed_ok (all_down down)
  route-RouteOk least (some i) (least_of {i = l} c is_least) pinned =
      let (b, at, up) = pinned i refl in
      rw (at, is_least.at) (with_pinned-RouteOk i l b c at up is_least)
  route-RouteOk least (some i) (all_full j c at_c up_c none_eligible) pinned =
      let (b, at, up) = pinned i refl in
      let no_room = refused-full _ i b (all_full j c at_c up_c none_eligible) at up in
      rw (at, no_room) (failed_ok (all_full j c at_c up_c none_eligible))
  route-RouteOk least (some i) (all_down down) pinned =
      let (b, at, up) = pinned i refl in
      let no_room = refused-full _ i b (all_down down) at up in
      rw (at, no_room) (failed_ok (all_down down))
