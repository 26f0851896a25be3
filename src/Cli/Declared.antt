-- ===== src/Cli/Declared.antt =====
-- cmd/lb/main.go: the flags that the command declares, with their defaults, and what the action
-- reads of them. The parsing of the command line is urfave/cli's: what it was given is an argument.
use go_load_balance.Prelude.{◌≡◌, refl, ℕ, ◌*◌, Bool, List, String, Option, none, some, ℤ, pos}
use go_load_balance.HealthChecker.{second}
use go_load_balance.Pool.{Pool}
use go_load_balance.Cli.{Flags, check_flags, configure}

abbrev pub hour : ℕ
hour = 3600 * second

-- `none` for a flag that is not given.
pub record Given : Type 0 where
  pub backends : Option (List String)
  pub args : List String
  pub port : Option ℤ
  pub timeout : Option ℤ
  pub health_check_interval : Option ℤ
  pub routing : Option String
  pub max_conns : Option ℤ
  pub affinity_ttl : Option ℤ
  pub log_to : Option String
  pub verbose : Bool

abbrev pub given_or {ℓ} : {A : Type ℓ} → A → Option A → A
given_or default none = default
given_or default (some v) = v

abbrev pub with_defaults : Given → List String → Flags
with_defaults g backends = record {
  backends = backends;
  args = g.args;
  port = given_or (pos 8080) g.port;
  timeout = given_or (pos (4 * hour)) g.timeout;
  health_check_interval = given_or (pos (30 * second)) g.health_check_interval;
  routing = given_or "least-conn" g.routing;
  max_conns = given_or (pos 0) g.max_conns;
  affinity_ttl = given_or (pos hour) g.affinity_ttl;
  log_to = given_or "" g.log_to;
  verbose = g.verbose;
}

abbrev flags_with : Given → Option (List String) → Option Flags
flags_with g none = none
flags_with g (some backends) = some (with_defaults g backends)

-- Only `--backends` is required; without it the action does not run.
unfoldable pub flags_of : Given → Option Flags
flags_of g = flags_with g g.backends

abbrev pub only : List String → List String → Given
only backends args = record {
  backends = some backends;
  args = args;
  port = none;
  timeout = none;
  health_check_interval = none;
  routing = none;
  max_conns = none;
  affinity_ttl = none;
  log_to = none;
  verbose = Bool.false;
}

-- The defaults pass the checks and leave the pool unlimited, in mode least-connections.
pub defaults_accepted :
    (backends args : List String) (p : Pool)
    → (c : Flags) × (flags_of (only backends args) ≡ some c)
      × (check_flags c ≡ none)
      × (configure c p ≡ p)
unfolding flags_of check_flags configure
defaults_accepted backends args p = (with_defaults (only backends args) backends, refl, refl, refl)
