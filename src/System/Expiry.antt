-- ===== src/System/Expiry.antt =====
-- Pins and outages: what the epoch of an entry is for (lib/cacheaware.go, lib/backend.go).
use go_load_balance.Prelude.{
  ℕ, ◌%◌, ◌^◌, ◌<◌, ◌≡◌, ◌≢◌, refl, sym, ap, ◌∙◌, List, [], ◌++◌, append_assoc, some, String, ℤ,
  Result, arith,
}
use go_load_balance.Affinity.{Entry}
use go_load_balance.Backend.{Backend}
use go_load_balance.Chain.{Codec}
use go_load_balance.Health.{Event, outages}
use go_load_balance.Pool.{Pool}
use go_load_balance.Pool.Choose.{At}
use go_load_balance.Routing.{judge_backend, stale}
use go_load_balance.System.{System, IsSetUp, Step, Reach, later}
use go_load_balance.System.Fates.{Reach-health}
use go_load_balance.System.History.{step_events, history}

-- From one state of the balancer to a later one.
pub data Onward (codec : Codec) (s : System) : System → Type 0 where
  here : Onward codec s s
  further : {t u : System} → Onward codec s t → Step codec t u → Onward codec s u

-- The events that befell backend `i` on the way, the latest first.
unfoldable pub since : {codec : Codec} {s t : System} → ℕ → Onward codec s t → List Event
since i here = []
since i (further o step) = step_events i step ++ since i o

module _ {codec : Codec} {p : Pool} {s : System} (r : Reach codec p s) where
  extend : {t : System} → Onward codec s t → Reach codec p t
  extend here = r
  extend (further o step) = later (extend o) step

  history-extend :
      (i : ℕ) {t : System} (o : Onward codec s t) → history i (extend o) ≡ since i o ++ history i r
  unfolding extend since history
  history-extend i here = refl
  history-extend i (further o step) =
      ap (λ past. step_events i step ++ past) (history-extend i o)
      ∙ sym (append_assoc (step_events i step) (since i o) (history i r))

other_epoch-stale :
    (now : ℕ) (ttl : ℤ) (e : Entry) (b : Backend)
    → e.epoch ≢ b.epoch
    → judge_backend now ttl e (some b) ≡ stale
other_epoch-stale now ttl e b other = ground arith

-- In a balancer as it is set up, a pin that carries the epoch that its backend has in one state is
-- stale in each later state, if in between a failure hit the backend while it was serving and, from
-- the start to that later state, fewer than 2 ^ 64 failures did so.
pub outages-stale :
    (parse_url : String → Result String String) (codec : Codec) (p : Pool) (s t : System)
    → IsSetUp parse_url p
    → (r : Reach codec p s) (o : Onward codec s t) (i : ℕ) (b b' : Backend) → At s.pool.backends i b
    → At t.pool.backends i b'
    → outages (history i r) < outages (since i o ++ history i r)
    → outages (since i o ++ history i r) < 2 ^ 64
    → (now : ℕ) (ttl : ℤ) (e : Entry) → e.epoch ≡ b.epoch
    → judge_backend now ttl e (some b') ≡ stale
outages-stale parse_url codec p s t set_up r o i b b' at at' hit small now ttl e same =
    let (_, was) = Reach-health parse_url codec p s set_up r i b at in
    let (_, is) = Reach-health parse_url codec p t set_up (extend r o) i b' at' in
    let is_since = is ∙ ap (λ evs. outages evs % 2 ^ 64) (history-extend r i o) in
    other_epoch-stale now ttl e b' (λ eq. omega arith)
