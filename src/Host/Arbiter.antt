-- ===== src/Host/Arbiter.antt =====
-- The state arbiter, host/src/state.ts (`StateArbitrator`).
pub mod Exclusion
mod Examples
use vivim_omega.Common.{
  String, Bool, true, false, not, ◌&&◌, ◌||◌, Option, none, some, List, [], ◌∷◌, ◌++◌, ◌==◌, any,
  if◌then◌else◌, or_else,
}
use vivim_omega.Common.Dict
use vivim_omega.Common.Dict.{Dict}

pub data LockMode : Type 0 where
  shared exclusive : LockMode

pub record Holder : Type 0 where
  pub principal : String
  pub mode : LockMode

-- the field `keys`
abbrev pub StateArbitrator : Type 0
StateArbitrator = Dict (List Holder)

abbrev pub is_exclusive : LockMode → Bool
is_exclusive exclusive = true
is_exclusive shared = false

abbrev pub is_empty : List Holder → Bool
is_empty [] = true
is_empty (h ∷ hs) = false

unfoldable pub holders_of : StateArbitrator → String → List Holder
holders_of s key = or_else (Dict.get key s) []

unfoldable pub is_conflict : List Holder → LockMode → Bool
is_conflict holders mode =
    any (λ h. is_exclusive h.mode) holders || (is_exclusive mode && not (is_empty holders))

-- the new state, and whether the lock was given
unfoldable pub try_acquire : String → String → LockMode → StateArbitrator → StateArbitrator × Bool
unfolding holders_of is_conflict
try_acquire key principal mode s =
    let holders = holders_of s key in
    if is_conflict holders mode
    then (s, false)
    else (Dict.put key (holders ++ record { principal = principal; mode = mode } ∷ []) s, true)

unfoldable pub without : String → List Holder → List Holder
without principal [] = []
without principal (h ∷ hs) =
    let rest = without principal hs in if h.principal == principal then rest else h ∷ rest

unfoldable pub release : String → String → StateArbitrator → StateArbitrator
unfolding without
release key principal s = elim (Dict.get key s) [
  | none ↦ s
  | some holders ↦ Dict.put key (without principal holders) s
]
