-- ===== src/Cli/Endpoint.antt =====
-- What `/health` of cmd/lb/main.go answers.
use go_load_balance.Prelude.{
  ℕ, zero, suc, ◌<◌, ◌^◌, ◌≡◌, refl, ap, ◌∙◌, true, false, List, [], ◌∷◌, none, some, pos, ◌⊎◌, inl,
  inr, length, arith,
}
use go_load_balance.Backend.{Backend}
use go_load_balance.Pool.{Pool, get_status}
use go_load_balance.Pool.Choose.{At}
use go_load_balance.Pool.Totals.{count_healthy, get_status-healthy_count}
use go_load_balance.Cli.{Writer, health_handler}

count_healthy-zero :
    (bs : List Backend)
    → count_healthy bs ≡ 0
    → (i : ℕ) (b : Backend) → At bs i b
    → b.healthy ≡ false
count_healthy-zero [] none_up i b at = cc
count_healthy-zero (c ∷ bs) none_up zero b at = ground arith
count_healthy-zero (c ∷ bs) none_up (suc i) b at = count_healthy-zero bs (ground arith) i b at

all_down-count_healthy :
    (bs : List Backend)
    → ((i : ℕ) (b : Backend) → At bs i b → b.healthy ≡ false)
    → count_healthy bs ≡ 0
all_down-count_healthy [] down = refl
all_down-count_healthy (c ∷ bs) down =
    let first_down = down 0 c refl in
    let rest = all_down-count_healthy bs (λ i b at. down (suc i) b at) in ground arith

-- A response writer on which nothing was set or sent.
abbrev pub fresh : Writer
fresh = record { content_type = none; sent = none }

health_handler-up :
    (p : Pool) (n : ℕ)
    → (get_status p).healthy_count ≡ pos (suc n)
    → (health_handler p fresh).0.sent ≡ some (200, some "application/json")
unfolding health_handler
health_handler-up p n e = ground (arith, e)

health_handler-down :
    (p : Pool)
    → (get_status p).healthy_count ≡ pos 0
    → (health_handler p fresh).0.sent ≡ some (503, none)
unfolding health_handler
health_handler-down p e = ground (arith, e)

zero_or_suc : (n : ℕ) → (n ≡ 0) ⊎ ((m : ℕ) × (n ≡ suc m))
zero_or_suc zero = inl refl
zero_or_suc (suc m) = inr (m, refl)

some_up-count_healthy :
    (bs : List Backend) (i : ℕ) (b : Backend)
    → At bs i b
    → b.healthy ≡ true
    → (n : ℕ) × (count_healthy bs ≡ suc n)
some_up-count_healthy bs i b at up = elim (zero_or_suc (count_healthy bs)) [
  | inl none_up ↦ let down = count_healthy-zero bs none_up i b at in absurd (cc)
  | inr more ↦ more
]

module _ (p : Pool) (small : length p.backends < 2 ^ 63) where
  -- `/health` answers 200 with the JSON content type if some backend is healthy. If none is, it
  -- answers 503 and the content type is lost, since it is set after the header was sent. The pool
  -- has fewer than 2 ^ 63 backends, and the response writer is fresh.
  pub health_handler_answers :
      (((i : ℕ) (b : Backend) → At p.backends i b → b.healthy ≡ false)
        → (health_handler p fresh).0.sent ≡ some (503, none))
      × ((i : ℕ) (b : Backend)
          → At p.backends i b
          → b.healthy ≡ true
          → (health_handler p fresh).0.sent ≡ some (200, some "application/json"))
  health_handler_answers = (
    λ down.
        health_handler-down p
          (get_status-healthy_count p small ∙ ap pos (all_down-count_healthy p.backends down)),
    λ i b at up.
        let (n, e) = some_up-count_healthy p.backends i b at up in
        health_handler-up p n (get_status-healthy_count p small ∙ ap pos e),
  )
