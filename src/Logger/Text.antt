-- ===== src/Logger/Text.antt =====
-- The texts of the status line (lib/logger.go, `joinInts` and the text of `connsSummary`).
use Prim.Native.String.{String, ◌++◌}
use mathlib.Core.List.{List, [], ◌∷◌, map}
use go_load_balance.Prelude.{ℤ}

-- `strings.Join`
abbrev pub join : List String → String → String
join [] sep = ""
join (x ∷ []) sep = x
join (x ∷ y ∷ ys) sep = x ++ (sep ++ join (y ∷ ys) sep)

-- `strconv.Itoa` is a parameter.
unfoldable pub join_ints : (itoa : ℤ → String) → List ℤ → String
join_ints itoa nums = join (map itoa nums) ", "

abbrev pub bracketed : String → String
bracketed s = "[" ++ (s ++ "]")

abbrev pub elided : String → String → String
elided front back = "[" ++ (front ++ (", ..., " ++ (back ++ "]")))
