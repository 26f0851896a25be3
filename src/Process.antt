-- ===== src/Process.antt =====
-- The life of the process of cmd/lb/main.go, from `ListenAndServe` to its exit: the action's own
-- goroutine, the goroutine that waits for a signal, and the requests. The steps of `http.Server` are
-- what net/http documents: `Shutdown` closes the listener, upon which `ListenAndServe` returns
-- `ErrServerClosed` at once, and then waits until no request is left or its context is done.
use go_load_balance.Prelude.{ℕ, suc, ◌≡◌, ◌≢◌, Bool, true, false, List, [], ◌∷◌}
pub mod Shutdown

-- The goroutine that runs the action: it serves; `ListenAndServe` has returned `ErrServerClosed`; the
-- deferred calls have run; the process has exited with this code.
pub data Main : Type 0 where
  serving returned closed : Main
  exited : (code : ℕ) → Main

-- The goroutine that waits for a signal; `gave_up` is after the 10 seconds of its context.
pub data Watcher : Type 0 where
  waiting signalled cancelling draining drained gave_up : Watcher

-- `in_flight` counts the requests that are being handled.
pub record Process : Type 0 where
  pub accepting : Bool
  pub in_flight : ℕ
  pub main : Main
  pub watcher : Watcher
  pub cancelled : Bool  -- the context of the health checker and of the status logger
  pub log_open : Bool  -- the file of the request log

abbrev pub started : Process
started = record {
  accepting = true;
  in_flight = 0;
  main = serving;
  watcher = waiting;
  cancelled = false;
  log_open = true;
}

abbrev pub IsAlive : Process → Type 0
IsAlive s = (code : ℕ) → s.main ≢ exited code

pub data Step (s : Process) : Process → Type 0 where
  accept : IsAlive s → s.accepting ≡ true → Step s (record s { in_flight = suc s.in_flight })
  finish : (n : ℕ) → IsAlive s → s.in_flight ≡ suc n → Step s (record s { in_flight = n })
  -- The signal goroutine, call by call.
  receive : IsAlive s → s.watcher ≡ waiting → Step s (record s { watcher = signalled })
  cancel :
      IsAlive s
      → s.watcher ≡ signalled
      → Step s (record s { watcher = cancelling; cancelled = true })
  shut_down :
      IsAlive s
      → s.watcher ≡ cancelling
      → Step s (record s { watcher = draining; accepting = false })
  drain :
      IsAlive s → s.watcher ≡ draining → s.in_flight ≡ 0 → Step s (record s { watcher = drained })
  give_up : IsAlive s → s.watcher ≡ draining → Step s (record s { watcher = gave_up })
  -- The action's goroutine.
  return : s.main ≡ serving → s.accepting ≡ false → Step s (record s { main = returned })
  run_deferred :
      s.main ≡ returned → Step s (record s { main = closed; cancelled = true; log_open = false })
  exit : s.main ≡ closed → Step s (record s { main = exited 0 })
  -- Any other error of `ListenAndServe` is fatal; nothing deferred runs.
  fail : s.main ≡ serving → Step s (record s { main = exited 1 })

pub data Steps (s : Process) : Process → Type 0 where
  none : Steps s s
  more : {t u : Process} → Steps s t → Step t u → Steps s u
