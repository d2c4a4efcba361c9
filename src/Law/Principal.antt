-- ===== src/Law/Principal.antt =====
-- Principal identity rows, plugins/vivim-law/src/principal.ts, with `principalKind` of
-- contracts/src/port.ts. A thrown error is `none`; `Date.now()` is the argument `now`.
pub mod Life
mod Examples
use Prim.Native.Char.{Char, code}
use vivim_omega.Common.{
  ℕ, ◌+◌, String, Bool, true, false, ◌||◌, Option, none, some, ◌==◌, ltb, leb, eqb, if◌then◌else◌,
  is_some,
}
use vivim_omega.Common.Text.{strip_prefix}
use vivim_omega.Law.Policy.{length}

pub data PrincipalKind : Type 0 where
  agent user host composition : PrincipalKind

pub data PrincipalState : Type 0 where
  active retired : PrincipalState

pub record PrincipalRecord : Type 0 where
  pub principal : String
  pub kind : PrincipalKind
  pub registered_at : ℕ
  pub state : PrincipalState
  pub retired_at : Option ℕ
  pub generation : ℕ

unfoldable pub principal_kind : String → PrincipalKind
principal_kind p =
    if is_some (strip_prefix "agent:" p)
    then agent
    else if is_some (strip_prefix "user:" p)
    then user
    else if p == "root" || is_some (strip_prefix "µhost" p)
    then host
    else composition

-- a character of [\u0000-\u001f\u007f]
unfoldable pub has_control : String → Bool
has_control String.[] = false
has_control (String.◌∷◌ c s) = (leb (code c) 0x1f || eqb (code c) 0x7f) || has_control s

unfoldable pub require_principal : String → Option String
unfolding has_control
require_principal p = if p == "" || (ltb 200 (length p) || has_control p) then none else some p

unfoldable pub new_record : ℕ → String → Option PrincipalRecord
unfolding require_principal principal_kind
new_record now principal = elim (require_principal principal) [
  | none ↦ none
  | some p ↦ some (record {
    principal = p;
    kind = principal_kind p;
    registered_at = now;
    state = active;
    retired_at = none;
    generation = 1;
  })
]

unfoldable pub retire_record : ℕ → PrincipalRecord → Option PrincipalRecord
retire_record now rec = elim rec.state [
  | retired ↦ none
  | active ↦
      some (record rec { state = retired; retired_at = some now; generation = rec.generation + 1 })
]
