-- ===== src/Tests/Cli.antt =====
-- A start with cache-aware routing over two backends, and `/health` of a pool.
use go_load_balance.Prelude.{
  ℕ, ◌≡◌, ◌↔◌, refl, true, false, [], ◌∷◌, String, pos, ok, err, some, none, Option, ◌<ℤ◌, ◌≤ℤ◌,
  if◌then◌else◌, arith,
}
use go_load_balance.Backend.{Backend, new_backend}
use go_load_balance.Pool.{Pool, new_backends, new_pool, enable_cache_aware}
use go_load_balance.Pool.Choose.{At}
use go_load_balance.System.{IsSetUp, LimitFits}
use go_load_balance.HealthChecker.{new_health_checker}
use go_load_balance.Logger.{new_status_logger}
use go_load_balance.Cli.Startup.{
  starting, port_is, timeout_is, interval_is, routing_is, max_conns_is, affinity_ttl_is, verbose_is,
  backends_are, backend_is, start_lines, is_given, Running, open_log, start_server,
  start_server_runs,
}
use go_load_balance.Cli.Setup.{check_flags-accepts_iff, Accepted, IsRight}
use go_load_balance.Cli.Endpoint.{fresh, health_handler_answers}
use go_load_balance.Cli.{
  Flags, no_log_file, invalid_port, short_interval, unlimited_cache_aware, check_flags, configure,
  start_pool, health_handler,
}
use go_load_balance.Tests.Samples.{parse_all, pool}

abbrev flags : Flags
flags = record {
  backends = "a:1" ∷ [];
  args = "https://b" ∷ [];
  port = pos 8080;
  timeout = pos 0;
  health_check_interval = pos 10000000000;
  routing = "cache-aware";
  max_conns = pos 4;
  affinity_ttl = pos 3600000000000;
  log_to = "";
  verbose = false;
}

abbrev idle : String → Backend
idle u = record { url = u; healthy = true; active_conns = pos 0; success_streak = pos 0; epoch = 0 }

abbrev started : Pool
started = enable_cache_aware (pos 3600000000000) (pos 4) (record {
  backends = idle "http://a:1" ∷ idle "https://b" ∷ [];
  max_conns = pos 0;
  affinity = none;
})

start_pool_test : start_pool parse_all flags ≡ ok started
unfolding start_pool check_flags configure new_pool new_backends new_backend
start_pool_test = refl

port_test : check_flags (record flags { port = pos 65536 }) ≡ some invalid_port
unfolding check_flags
port_test = refl

-- The first example of the usage text of `--health-check-interval`.
usage_test :
    check_flags (record flags { health_check_interval = pos 500000000 }) ≡ some short_interval
unfolding check_flags
usage_test = refl

unlimited_test : check_flags (record flags { max_conns = pos 0 }) ≡ some unlimited_cache_aware
unfolding check_flags
unlimited_test = refl

-- The log file opens.
abbrev no_error : String → Option String
no_error path = none

abbrev running : Running
running = record {
  pool = started;
  req_log = some "log.jsonl";
  health_checker = new_health_checker (pos 10000000000);
  status_logger = new_status_logger (pos 10000000000) true;
  port = pos 8080;
  timeout = pos 0;
}

abbrev logging : Flags
logging = record flags { log_to = "log.jsonl"; verbose = true }

start_server_test : start_server parse_all no_error logging ≡ ok running
unfolding start_server open_log start_pool check_flags configure new_pool new_backends new_backend
start_server_test = refl

unopened_test :
    start_server parse_all (λ path. some "is a directory") logging
    ≡ err (no_log_file "is a directory")
unfolding start_server open_log start_pool check_flags configure new_pool new_backends new_backend
unopened_test = refl

start_lines_test :
    start_lines "dev" flags
    ≡ starting "dev"
      ∷ port_is (pos 8080)
      ∷ timeout_is (pos 0)
      ∷ interval_is (pos 10000000000)
      ∷ routing_is "cache-aware"
      ∷ max_conns_is (pos 4)
      ∷ affinity_ttl_is (pos 3600000000000)
      ∷ verbose_is false
      ∷ backends_are
      ∷ backend_is "http://a:1"
      ∷ backend_is "https://b"
      ∷ []
unfolding start_lines
start_lines_test = refl

start_server_runs_example :
    IsSetUp parse_all running.pool
    × LimitFits running.pool.affinity
    × (running.health_checker.timeout <ℤ running.health_checker.interval)
    × (running.status_logger.interval ≡ running.health_checker.interval)
    × (running.req_log ≡ (if is_given logging.log_to then some logging.log_to else none))
    × ((pos 1 ≤ℤ running.port) × (running.port ≤ℤ pos 65535) × (pos 0 ≤ℤ running.timeout))
start_server_runs_example =
    start_server_runs parse_all no_error logging running start_server_test (omega arith)
      (omega arith, omega arith)

check_flags-accepts_iff_example :
    ((check_flags flags ≡ none) ↔ Accepted flags) × IsRight flags (check_flags flags)
check_flags-accepts_iff_example = check_flags-accepts_iff flags

health_handler_answers_example :
    (((i : ℕ) (b : Backend) → At pool.backends i b → b.healthy ≡ false)
      → (health_handler pool fresh).0.sent ≡ some (503, none))
    × ((i : ℕ) (b : Backend)
        → At pool.backends i b
        → b.healthy ≡ true
        → (health_handler pool fresh).0.sent ≡ some (200, some "application/json"))
health_handler_answers_example = health_handler_answers pool (omega arith)
