-- ===== src/Host/Tools.antt =====
-- The tool registry, host/src/contract.ts (`ToolRegistry`, `matchesRange`).
pub mod History
mod Examples
use Prim.Native.Nat.{compare, Ordering}
use Prim.Native.Char.{Char, code}
use vivim_omega.Common.{
  String, Bool, true, false, ◌||◌, Option, none, some, List, [], ◌∷◌, ◌++◌, ◌==◌, if◌then◌else◌,
  or_else, get_last?, length, ℕ, zero,
}
use vivim_omega.Common.Dict
use vivim_omega.Common.Dict.{Dict}
use vivim_omega.Common.Text.{strip_suffix}

pub record GenerationPin : Type 0 where
  pub version : String
  pub impl : String

-- the field `generations`, oldest first under each name
abbrev pub ToolRegistry : Type 0
ToolRegistry = Dict (List GenerationPin)

-- `version.split(".")[0]`
unfoldable pub first_segment : String → String
first_segment String.[] = ""
first_segment (String.◌∷◌ c s) = elim (compare (code c) b'.') [
  | Ordering.eq ↦ ""
  | _ ↦ String.◌∷◌ c (first_segment s)
]

unfoldable pub matches_range : String → String → Bool
matches_range version range =
    if range == "*" || (range == "" || range == "latest")
    then true
    else elim (strip_suffix ".x" range) [
      | some series ↦ first_segment version == series
      | none ↦ version == range
    ]

unfoldable pub publish : String → String → String → ToolRegistry → ToolRegistry
publish name version impl t =
    Dict.put name (or_else (Dict.get name t) [] ++ record { version = version; impl = impl } ∷ []) t

-- the loop from the newest generation down
unfoldable pub newest : String → List GenerationPin → Option GenerationPin
newest range [] = none
newest range (g ∷ gs) = elim (newest range gs) [
  | some later ↦ some later
  | none ↦ if matches_range g.version range then some g else none
]

unfoldable pub resolve : String → String → ToolRegistry → Option GenerationPin
unfolding newest
resolve name range t = elim (Dict.get name t) [ none ↦ none | some list ↦ newest range list ]

unfoldable pub latest : String → ToolRegistry → Option GenerationPin
latest name t = elim (Dict.get name t) [ none ↦ none | some list ↦ get_last? list ]

unfoldable pub generation_count : String → ToolRegistry → ℕ
generation_count name t = length (or_else (Dict.get name t) [])
