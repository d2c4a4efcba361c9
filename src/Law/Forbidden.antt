-- ===== src/Law/Forbidden.antt =====
-- The forbidden overlay, plugins/vivim-law/src/forbidden.ts (`ForbiddenTable`, `requireOps`).
-- `[...new Set(out)].sort()` sorts texts by UTF-16 units; the order of the list is never read but by
-- people, so the model keeps the order of the set.
pub mod Overlay
use vivim_omega.Common.{
  String, Bool, true, false, not, ◌&&◌, Option, none, some, List, [], ◌∷◌, ◌==◌, if◌then◌else◌,
  or_else, any,
}
use vivim_omega.Common.Dict
use vivim_omega.Common.Dict.{Dict}
use vivim_omega.Common.StrSet
use vivim_omega.Common.StrSet.{StrSet}

-- the field `entries`
abbrev pub ForbiddenTable : Type 0
ForbiddenTable = Dict StrSet

-- `new Set(out)`
unfoldable pub to_set : List String → StrSet
to_set [] = []
to_set (x ∷ xs) = StrSet.add x (to_set xs)

-- `none` where an op is the empty text
unfoldable pub require_ops : List String → Option StrSet
unfolding to_set
require_ops ops = if any (λ o. o == "") ops then none else some (to_set ops)

unfoldable pub store : String → StrSet → ForbiddenTable → ForbiddenTable
store p [] t = Dict.delete p t
store p (op ∷ ops) t = Dict.put p (op ∷ ops) t

-- `set`; `none` where it throws
unfoldable pub set : String → List String → ForbiddenTable → Option ForbiddenTable
unfolding require_ops store
set principal ops t =
    if principal == ""
    then none
    else elim (require_ops ops) [ none ↦ none | some list ↦ some (store principal list t) ]

unfoldable pub is_forbidden : String → String → ForbiddenTable → Bool
is_forbidden principal op t = StrSet.has op (or_else (Dict.get principal t) [])

unfoldable pub clear : String → ForbiddenTable → Option (ForbiddenTable × Bool)
clear principal t =
    if principal == "" then none else some (Dict.delete principal t, Dict.has principal t)
