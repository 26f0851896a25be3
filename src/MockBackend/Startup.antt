-- ===== src/MockBackend/Startup.antt =====
-- cmd/mock-backend/main.go, `main`: what is printed at the start, and the routes.
use go_load_balance.Prelude.{
  Bool, false, ◌||◌, List, [], ◌∷◌, ◌++◌, String, Option, none, some, ℤ, if◌then◌else◌,
}
use go_load_balance.Cli.Text.{eq_text}
use go_load_balance.MockBackend.{Floats, Config, FlagError, check_config}

pub data Handler : Type 0 where
  health completions prefix_stats default : Handler

pub data StartLine (fl : Floats) : Type 0 where
  starting : StartLine fl
  port_is delay_is response_size_is : ℤ → StartLine fl
  mode_is : String → StartLine fl
  failure_rate_is : fl.float → StartLine fl

-- What `main` comes to before it listens: it exits with an error, `http.HandleFunc` panics on a
-- pattern that is registered already, or it listens with these routes.
pub data Started : Type 0 where
  rejected : FlagError → Started
  conflict : Started
  listening : List (String × Handler) → Started

-- The patterns that are registered after the health endpoint's.
abbrev pub fixed_routes : List (String × Handler)
fixed_routes =
    ("/v1/completions", completions)
    ∷ ("/v1/chat/completions", completions)
    ∷ ("/prefixstats", prefix_stats)
    ∷ ("/", default)
    ∷ []

abbrev pub is_registered : String → List (String × Handler) → Bool
is_registered pattern [] = false
is_registered pattern ((q, h) ∷ routes) = eq_text pattern q || is_registered pattern routes

abbrev pub register :
    String × Handler → Option (List (String × Handler)) → Option (List (String × Handler))
register route none = none
register (pattern, h) (some routes) =
    if is_registered pattern routes then none else some (routes ++ (pattern, h) ∷ [])

abbrev pub register_all :
    List (String × Handler) → Option (List (String × Handler)) → Option (List (String × Handler))
register_all [] mux = mux
register_all (route ∷ routes) mux = register_all routes (register route mux)

abbrev pub listen : Option (List (String × Handler)) → Started
listen none = conflict
listen (some routes) = listening routes

abbrev pub unless_rejected : Option FlagError → Started → Started
unless_rejected none s = s
unless_rejected (some e) s = rejected e

module _ (fl : Floats) where
  -- 100 times the failure rate is printed.
  unfoldable pub start_lines : (percent : fl.float → fl.float) → Config fl → List (StartLine fl)
  start_lines percent c =
      (starting
        ∷ port_is c.port
        ∷ mode_is c.mode
        ∷ delay_is c.delay
        ∷ response_size_is c.response_size
        ∷ [])
      ++ (if eq_text c.mode "flaky" then failure_rate_is (percent c.failure_rate) ∷ [] else [])

  unfoldable pub start_mock : Config fl → Started
  unfolding check_config
  start_mock c =
      unless_rejected (check_config fl c)
        (listen (register_all fixed_routes (register (c.health_endpoint, health) (some []))))
