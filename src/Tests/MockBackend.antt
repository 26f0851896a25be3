-- ===== src/Tests/MockBackend.antt =====
-- A prefix tracker with two texts, and a request that continues one of them.
use go_load_balance.Prelude.{
  ℕ, ◌≤◌, ◌≡◌, ◌⊎◌, refl, [], ◌∷◌, ◌++◌, Option, none, some, ℤ, pos, negsuc, length, drop,
  get_elem?, ltb, ltb_ℤ, if◌then◌else◌, to_int, ◌+ℤ◌, arith,
}
use go_load_balance.Chain.{Bytes}
use go_load_balance.MockBackend.{
  Floats, Config, MockRequest, PrefixTracker, canonical_text, observe, invalid_failure_rate,
  check_config, handle_health, unavailable, handle_completions, aborted,
}
use go_load_balance.MockBackend.Startup.{health, listening, conflict, fixed_routes, start_mock}
use go_load_balance.MockBackend.Matching.{Agree, observe_matches}

-- No body is JSON.
abbrev undecoded : Bytes → Option MockRequest
undecoded body = none

abbrev tracker : PrefixTracker
tracker = record {
  texts = (1 ∷ 2 ∷ 3 ∷ []) ∷ (1 ∷ 9 ∷ []) ∷ [];
  requests = pos 2;
  matched_chars = pos 1;
  total_chars = pos 5;
}

observe_test : observe undecoded (1 ∷ 2 ∷ 7 ∷ 8 ∷ []) tracker ≡ (
  record {
    texts = (1 ∷ 2 ∷ 3 ∷ []) ∷ (1 ∷ 9 ∷ []) ∷ (1 ∷ 2 ∷ 7 ∷ 8 ∷ []) ∷ [];
    requests = pos 3;
    matched_chars = pos 3;
    total_chars = pos 9;
  },
  2,
  4,
)
unfolding observe to_int ◌+ℤ◌
observe_test = refl

observe_matches_example :
    ((observe undecoded (1 ∷ 2 ∷ 7 ∷ []) tracker).2
      ≡ length (canonical_text undecoded (1 ∷ 2 ∷ 7 ∷ [])))
    × ((observe undecoded (1 ∷ 2 ∷ 7 ∷ []) tracker).1
        ≤ length (canonical_text undecoded (1 ∷ 2 ∷ 7 ∷ [])))
    × (((observe undecoded (1 ∷ 2 ∷ 7 ∷ []) tracker).1 ≡ 0)
        ⊎ ((i : ℕ) × (t : Bytes) × (get_elem? tracker.texts i ≡ some t)
            × Agree
                (observe undecoded (1 ∷ 2 ∷ 7 ∷ []) tracker).1
                t
                (canonical_text undecoded (1 ∷ 2 ∷ 7 ∷ []))))
    × ((i n : ℕ) (t : Bytes)
        → get_elem? tracker.texts i ≡ some t
        → Agree n t (canonical_text undecoded (1 ∷ 2 ∷ 7 ∷ []))
        → n ≤ (observe undecoded (1 ∷ 2 ∷ 7 ∷ []) tracker).1)
    × ((observe undecoded (1 ∷ 2 ∷ 7 ∷ []) tracker).0.texts
        ≡ (if ltb (length tracker.texts) 1024 then tracker.texts else drop 1 tracker.texts)
          ++ canonical_text undecoded (1 ∷ 2 ∷ 7 ∷ []) ∷ [])
    × (length (observe undecoded (1 ∷ 2 ∷ 7 ∷ []) tracker).0.texts ≤ 1024)
observe_matches_example = observe_matches undecoded (1 ∷ 2 ∷ 7 ∷ []) tracker (omega arith)

-- Percentages in the place of float64.
abbrev percent : Floats
percent = record {
  float = ℤ;
  below = ltb_ℤ;
  zero_float = pos 0;
  one_float = pos 100;
  ratio_of = λ a b. a;
  scale_int = λ n f. n;
}

abbrev flaky : Config percent
flaky = record {
  port = pos 8000;
  mode = "flaky";
  delay = pos 0;
  failure_rate = pos 50;
  response_size = negsuc 0;
  health_endpoint = "/v1/models";
}

config_test :
    check_config percent (record flaky { failure_rate = pos 101 }) ≡ some invalid_failure_rate
unfolding check_config
config_test = refl

health_test : handle_health percent (pos 49) flaky ≡ unavailable
unfolding handle_health
health_test = refl

-- A negative size panics.
completions_test :
    (handle_completions percent undecoded (λ k n. 0) (pos 1) (pos 50) flaky [] tracker).1 ≡ aborted
unfolding handle_completions
completions_test = refl

-- The routes, and a health endpoint that is one of the others, which panics.
routes_test : start_mock percent flaky ≡ listening (("/v1/models", health) ∷ fixed_routes)
unfolding start_mock
routes_test = refl

conflict_test : start_mock percent (record flaky { health_endpoint = "/prefixstats" }) ≡ conflict
unfolding start_mock
conflict_test = refl
