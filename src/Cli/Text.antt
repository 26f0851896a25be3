-- ===== src/Cli/Text.antt =====
-- The strings of cmd/lb/main.go: equality, `strings.Contains`, and the scheme of a backend's URL.
use Prim.Native.Nat.{ℕ}
use Prim.Native.String.{String, ◌++◌}
use mathlib.Core.Bool.{Bool, true, false}
use mathlib.Core.Option.{Option, none, some}
use text.Mathlib.Text.{◌==◌, find?}
use go_load_balance.Prelude.{if◌then◌else◌}

abbrev pub eq_text : String → String → Bool
eq_text s t = s == t

abbrev is_found : Option ℕ → Bool
is_found none = false
is_found (some i) = true

abbrev pub contains_text : String → String → Bool
contains_text s t = is_found (find? s t)

-- Backends without a scheme get `http://`.
abbrev pub add_scheme : String → String
add_scheme b = if contains_text b "://" then b else "http://" ++ b
