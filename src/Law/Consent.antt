-- ===== src/Law/Consent.antt =====
-- The consent table, plugins/vivim-law/src/consent.ts (`ConsentTable`). `Date.now()` is the argument
-- `now`.
pub mod Lifecycle
mod Examples
use vivim_omega.Common.{
  ℕ, zero, suc, ◌+◌, String, Bool, true, false, not, ◌&&◌, Option, none, some, List, [], ◌∷◌, ◌==◌,
  if◌then◌else◌,
}
use vivim_omega.Common.Dict
use vivim_omega.Common.Dict.{Dict}
use vivim_omega.Law.ConsentId.{consent_id_for, is_consent_id}

pub record ConsentRecord : Type 0 where
  pub consent_id : String
  pub principal : Option String
  pub scope : Option String
  pub granted_at : ℕ
  pub generation : ℕ
  pub active : Bool
  pub revoked_at : Option ℕ

pub record ConsentTable : Type 0 where
  pub grants : Dict ConsentRecord
  pub gen : ℕ

abbrev pub empty : ConsentTable
empty = record { grants = []; gen = 0 }

-- `none` where the id is malformed
unfoldable pub grant :
    ℕ
    → String
    → Option String
    → Option String
    → ConsentTable
    → Option (ConsentTable × ConsentRecord)
grant now consent_id principal scope t =
    if not (is_consent_id consent_id)
    then none
    else let rec : ConsentRecord = record {
      consent_id = consent_id;
      principal = principal;
      scope = scope;
      granted_at = now;
      generation = t.gen + 1;
      active = true;
      revoked_at = none;
    } in
      some (record { grants = Dict.put consent_id rec t.grants; gen = t.gen + 1 }, rec)

unfoldable pub revoke : ℕ → String → ConsentTable → ConsentTable × Bool
revoke now consent_id t = elim (Dict.get consent_id t.grants) [
  | none ↦ (t, false)
  | some rec ↦ if not rec.active then (t, false) else (
    record {
      grants = Dict.put consent_id (record rec { active = false; revoked_at = some now }) t.grants;
      gen = t.gen + 1;
    },
    true,
  )
]

-- an absent narrowing field admits everything
abbrev pub admits : Option String → String → Bool
admits none x = true
admits (some y) x = y == x

unfoldable pub has_matching_grant : String → String → ConsentTable → Option ConsentRecord
has_matching_grant principal op t = elim (Dict.get (consent_id_for principal op) t.grants) [
  | none ↦ none
  | some rec ↦
      if not rec.active
      then none
      else if not (admits rec.principal principal)
      then none
      else if not (admits rec.scope op)
      then none
      else some rec
]

unfoldable pub active_count : Dict ConsentRecord → ℕ
active_count [] = 0
active_count ((id, rec) ∷ rest) = (if rec.active then 1 else 0) + active_count rest

-- the active grants that name the principal
unfoldable pub list_for : String → Dict ConsentRecord → List ConsentRecord
list_for principal [] = []
list_for principal ((id, rec) ∷ rest) =
    let others = list_for principal rest in
    if rec.active && elim rec.principal [ none ↦ false | some p ↦ p == principal ]
    then rec ∷ others
    else others
