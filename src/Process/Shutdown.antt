-- ===== src/Process/Shutdown.antt =====
-- What a shutdown does, and what it leaves undone.
use go_load_balance.Prelude.{ℕ, ◌≡◌, ◌≢◌, ◌⊎◌, refl, Bool, true, false, arith}
use go_load_balance.Process.{
  Main, serving, returned, closed, exited, Watcher, waiting, signalled, cancelling, draining,
  drained, gave_up, Process, started, Step, accept, finish, receive, cancel, shut_down, drain,
  give_up, return, run_deferred, exit, fail, Steps, none, more,
}

-- How far the signal goroutine is.
abbrev pub has_shut_down : Watcher → Bool
has_shut_down waiting = false
has_shut_down signalled = false
has_shut_down cancelling = false
has_shut_down draining = true
has_shut_down drained = true
has_shut_down gave_up = true

abbrev has_cancelled : Watcher → Bool
has_cancelled waiting = false
has_cancelled signalled = false
has_cancelled cancelling = true
has_cancelled draining = true
has_cancelled drained = true
has_cancelled gave_up = true

abbrev is_serving : Main → Bool
is_serving serving = true
is_serving returned = false
is_serving closed = false
is_serving (exited code) = false

-- What holds at every moment.
pub record Inv (s : Process) : Type 0 where
  pub listener : (s.accepting ≡ false) → has_shut_down s.watcher ≡ true
  pub context : has_cancelled s.watcher ≡ true → s.cancelled ≡ true
  pub returns : (is_serving s.main ≡ false) → (s.main ≡ exited 1) ⊎ (s.accepting ≡ false)
  pub file : s.log_open ≡ false → (s.accepting ≡ false) × (is_serving s.main ≡ false)
  pub deferred : s.main ≡ closed → s.log_open ≡ false
  pub exits : s.main ≡ exited 0 → s.log_open ≡ false

Step-Inv : (s t : Process) → Inv s → Step s t → Inv t
Step-Inv s t inv (accept alive on) = ground arith
Step-Inv s t inv (finish n alive some_left) = ground arith
Step-Inv s t inv (receive alive at) = ground arith
Step-Inv s t inv (cancel alive at) = ground arith
Step-Inv s t inv (shut_down alive at) = ground arith
Step-Inv s t inv (drain alive at none_left) = ground arith
Step-Inv s t inv (give_up alive at) = ground arith
Step-Inv s t inv (return at off) = ground arith
Step-Inv s t inv (run_deferred at) = ground arith
Step-Inv s t inv (exit at) = ground arith
Step-Inv s t inv (fail at) = ground arith

Steps-Inv : (s t : Process) → Inv s → Steps s t → Inv t
Steps-Inv s t inv none = inv
Steps-Inv s t inv (more {t = u} steps step) = Step-Inv u t (Steps-Inv s u inv steps) step

started-Inv : Inv started
started-Inv = ground arith

-- The process exits with 0 only once the signal goroutine has called `Shutdown`: the context of the
-- loops is cancelled, the listener is closed, and so is the file of the request log.
pub Steps-orderly :
    (s : Process)
    → Steps started s
    → s.main ≡ exited 0
    → (has_shut_down s.watcher ≡ true)
      × (s.cancelled ≡ true)
      × (s.accepting ≡ false)
      × (s.log_open ≡ false)
Steps-orderly s steps e = let inv = Steps-Inv started s started-Inv steps in ground arith

-- As long as the action serves, the file of the request log is open.
Steps-log_open : (s : Process) → Steps started s → s.main ≡ serving → s.log_open ≡ true
Steps-log_open s steps e = let inv = Steps-Inv started s started-Inv steps in ground arith

-- The shutdown does not wait for requests: from any moment at which the action serves and no signal
-- has come, however many requests are being handled, a signal can lead to the exit of the process
-- with all of them unanswered, and with `Shutdown` still waiting for them.
pub shutdown_abandons :
    (s : Process)
    → s.main ≡ serving
    → s.watcher ≡ waiting
    → (t : Process) × Steps s t
      × (t.main ≡ exited 0)
      × (t.in_flight ≡ s.in_flight)
      × (t.watcher ≡ draining)
shutdown_abandons s serves waits =
    let s₁ : Process = record s { watcher = signalled } in
    let s₂ : Process = record s₁ { watcher = cancelling; cancelled = true } in
    let s₃ : Process = record s₂ { watcher = draining; accepting = false } in
    let s₄ : Process = record s₃ { main = returned } in
    let s₅ : Process = record s₄ { main = closed; cancelled = true; log_open = false } in
    let alive : (code : ℕ) → s.main ≢ exited code = λ code e. cc in
    (
      record s₅ { main = exited 0 },
      more
          (more
            (more
              (more (more (more none (receive alive waits)) (cancel alive refl))
                (shut_down alive refl))
              (return serves refl))
            (run_deferred refl))
          (exit refl),
      refl,
      refl,
      refl,
    )
