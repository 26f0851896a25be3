-- ===== src/Tests/Process.antt =====
-- A shutdown with two requests that are being handled.
use go_load_balance.Prelude.{◌≡◌, ◌≢◌, refl, true, false, ℕ}
use go_load_balance.Process.{
  Process, started, exited, draining, Steps, none, more, receive, cancel, shut_down, return,
  run_deferred, exit,
}
use go_load_balance.Process.Shutdown.{has_shut_down, Steps-orderly, shutdown_abandons}

abbrev two : Process
two = record started { in_flight = 2 }

shutdown_abandons_example :
    (t : Process) × Steps two t
    × (t.main ≡ exited 0)
    × (t.in_flight ≡ two.in_flight)
    × (t.watcher ≡ draining)
shutdown_abandons_example = shutdown_abandons two refl refl

abbrev stopped : Process
stopped = record {
  accepting = false;
  in_flight = 0;
  main = exited 0;
  watcher = draining;
  cancelled = true;
  log_open = false;
}

stopped-Steps : Steps started stopped
stopped-Steps =
    let alive : (code : ℕ) → started.main ≢ exited code = λ code e. cc in
    more
      (more
        (more
          (more (more (more none (receive alive refl)) (cancel alive refl)) (shut_down alive refl))
          (return refl refl))
        (run_deferred refl))
      (exit refl)

Steps-orderly_example :
    (has_shut_down stopped.watcher ≡ true)
    × (stopped.cancelled ≡ true)
    × (stopped.accepting ≡ false)
    × (stopped.log_open ≡ false)
Steps-orderly_example = Steps-orderly stopped stopped-Steps refl
