-- ===== src/System/Tracks.antt =====
-- A backend's health follows the events that befall it, and nothing else.
use go_load_balance.Prelude.{
  ℕ, ◌≡◌, ◌≢◌, inl, inr, refl, sym, ap, subst, ◌∙◌, List, [], ◌∷◌, ◌++◌, modify,
  get_elem?-modify_inv, arith,
}
use go_load_balance.Backend.{
  Backend, increment_conns, decrement_conns, mark_unhealthy, record_check_success, error_handler,
  modify_response,
}
use go_load_balance.HealthChecker.{failed, answered, check_backend}
use go_load_balance.Health.{Event, checked, proxy_failed, responded, handle, run}
use go_load_balance.Pool.Choose.{At}
use go_load_balance.System.History.{event_at}

-- The same health, streak and epoch.
pub record SameHealth (b c : Backend) : Type 0 where
  pub healthy : b.healthy ≡ c.healthy
  pub streak : b.success_streak ≡ c.success_streak
  pub epoch : b.epoch ≡ c.epoch

SameHealth-refl : (b : Backend) → SameHealth b b
SameHealth-refl b = record { healthy = refl; streak = refl; epoch = refl }

SameHealth-trans : {b c d : Backend} → SameHealth b c → SameHealth c d → SameHealth b d
SameHealth-trans s t = record {
  healthy = s.healthy ∙ t.healthy;
  streak = s.streak ∙ t.streak;
  epoch = s.epoch ∙ t.epoch;
}

handle-SameHealth :
    (e : Event) (b c : Backend) → SameHealth b c → SameHealth (handle e b) (handle e c)
unfolding handle check_backend mark_unhealthy record_check_success error_handler modify_response
handle-SameHealth (checked (failed error)) b c s = ground arith
handle-SameHealth (checked (answered code)) b c s = ground arith
handle-SameHealth (proxy_failed cancelled error) b c s = ground arith
handle-SameHealth (responded code) b c s = ground arith

run-SameHealth :
    (evs : List Event) (b c : Backend) → SameHealth b c → SameHealth (run evs b) (run evs c)
unfolding run
run-SameHealth [] b c s = s
run-SameHealth (e ∷ evs) b c s =
    handle-SameHealth e (run evs b) (run evs c) (run-SameHealth evs b c s)

run-append :
    (later past : List Event) (b : Backend) → run (later ++ past) b ≡ run later (run past b)
unfolding run
run-append [] past b = refl
run-append (e ∷ later) past b = ap (handle e) (run-append later past b)

-- Each backend at `i` stems from one that had these events since.
abbrev pub Tracks : ℕ → List Event → List Backend → List Backend → Type 0
Tracks i evs bs bs' =
    (b' : Backend) → At bs' i b' → (b : Backend) × At bs i b × SameHealth b' (run evs b)

module _ (i : ℕ) where
  pub Tracks-refl : (bs : List Backend) → Tracks i [] bs bs
  unfolding run
  Tracks-refl bs b at = (b, at, SameHealth-refl b)

  pub Tracks-trans :
      (later past : List Event) (bs bs₁ bs₂ : List Backend)
      → Tracks i past bs bs₁
      → Tracks i later bs₁ bs₂
      → Tracks i (later ++ past) bs bs₂
  Tracks-trans later past bs bs₁ bs₂ first second b₂ at₂ =
      let (b₁, at₁, same₁) = second b₂ at₂ in
      let (b, at, same) = first b₁ at₁ in
      (
        b,
        at,
        subst (SameHealth b₂) (sym (run-append later past b))
            (SameHealth-trans same₁ (run-SameHealth later b₁ (run past b) same)),
      )

  -- A change of one backend that leaves its health alone.
  pub modify-Tracks :
      (bs : List Backend) (j : ℕ) (f : Backend → Backend)
      → ((b : Backend) → SameHealth (f b) b)
      → Tracks i [] bs (modify bs j f)
  unfolding run
  modify-Tracks bs j f keeps b' at' = elim (get_elem?-modify_inv bs j i f b' at') [
    | inl (same, b, at, is) ↦ (b, at, subst (λ x. SameHealth x b) (sym is) (keeps b))
    | inr (ne, at) ↦ (b', at, SameHealth-refl b')
  ]

  event_at_own : (j : ℕ) (e : Event) → j ≡ i → event_at i j e ≡ e ∷ []
  event_at_own j e same = ground arith

  event_at_other : (j : ℕ) (e : Event) → j ≢ i → event_at i j e ≡ []
  event_at_other j e ne = ground arith

  pub handle-Tracks :
      (bs : List Backend) (j : ℕ) (e : Event)
      → Tracks i (event_at i j e) bs (modify bs j (handle e))
  unfolding run
  handle-Tracks bs j e b' at' = elim (get_elem?-modify_inv bs j i (handle e) b' at') [
    | inl (same, b, at, is) ↦ (
      b,
      at,
      subst (λ evs. SameHealth b' (run evs b)) (sym (event_at_own j e same))
          (subst (λ x. SameHealth x (handle e b)) (sym is) (SameHealth-refl (handle e b))),
    )
    | inr (ne, at) ↦ (
      b',
      at,
      subst (λ evs. SameHealth b' (run evs b')) (sym (event_at_other j e ne)) (SameHealth-refl b'),
    )
  ]

pub increment-SameHealth : (b : Backend) → SameHealth (increment_conns b) b
unfolding increment_conns
increment-SameHealth b = record { healthy = refl; streak = refl; epoch = refl }

pub decrement-SameHealth : (b : Backend) → SameHealth (decrement_conns b) b
unfolding decrement_conns
decrement-SameHealth b = record { healthy = refl; streak = refl; epoch = refl }
