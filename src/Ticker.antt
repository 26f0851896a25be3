-- ===== src/Ticker.antt =====
-- The loops `for { select { case <-ctx.Done(): return; case <-ticker.C: … } }` of
-- lib/healthcheck.go and lib/logger.go.
use go_load_balance.Prelude.{◌≡◌, refl, Bool, true, false, List, [], ◌∷◌, ◌++◌, map}

-- What a `select` of the loop receives, a tick with what its round reads.
pub data Wake {ℓ} (W : Type ℓ) : Type ℓ where
  tick : W → Wake W
  done : Wake W

-- The state after the rounds, and whether the loop has returned.
unfoldable pub loop {ℓ κ} : {W : Type ℓ} {S : Type κ} → (W → S → S) → List (Wake W) → S → S × Bool
loop body [] s = (s, false)
loop body (tick w ∷ wakes) s = loop body wakes (body w s)
loop body (done ∷ wakes) s = (s, true)

-- The rounds, one after the other.
abbrev pub rounds {ℓ κ} : {W : Type ℓ} {S : Type κ} → (W → S → S) → List W → S → S
rounds body [] s = s
rounds body (w ∷ ws) s = rounds body ws (body w s)

-- The loop runs a round for each tick before the context is done, and then returns, whatever comes
-- after.
pub loop-done {ℓ κ} :
    {W : Type ℓ} {S : Type κ} (body : W → S → S) (ws : List W) (later : List (Wake W)) (s : S)
    → loop body (map tick ws ++ done ∷ later) s ≡ (rounds body ws s, true)
unfolding loop
loop-done body [] later s = refl
loop-done body (w ∷ ws) later s = loop-done body ws later (body w s)

pub loop-waiting {ℓ κ} :
    {W : Type ℓ} {S : Type κ} (body : W → S → S) (ws : List W) (s : S)
    → loop body (map tick ws) s ≡ (rounds body ws s, false)
unfolding loop
loop-waiting body [] s = refl
loop-waiting body (w ∷ ws) s = loop-waiting body ws (body w s)
