-- ===== src/Law/Check.antt =====
-- The gate, plugins/vivim-law/src/index.ts: `resolve` and the op law.check@1, with the shadow policy
-- of amendment.ts (`ShadowAmendment.observe`). The journal row is best effort and never changes the
-- decision; whether one is written is the result's field `journaled`. The reasons are left out.
pub mod Decisions
mod Examples
use vivim_omega.Common.{
  String, Bool, true, false, Option, none, some, List, [], ◌∷◌, ◌++◌, if◌then◌else◌, is_some, ℕ,
  ◌+◌,
}
use vivim_omega.Law.Policy.{LawAction, allow, deny, require_consent, PolicyDoc, eval_policy}
use vivim_omega.Law.ConsentId.{consent_id_for}
use vivim_omega.Law.Consent.{ConsentTable, has_matching_grant}
use vivim_omega.Law.Forbidden.{ForbiddenTable, is_forbidden}

pub record Resolved : Type 0 where
  pub decision : LawAction
  pub journal : Bool
  pub consent_id : Option String

-- the consents applied to an action of the policy
unfoldable pub apply_consent : ConsentTable → String → String → LawAction → Bool → Resolved
apply_consent consents principal op require_consent journal =
    elim (has_matching_grant principal op consents) [
      | some grant ↦ record { decision = allow; journal = journal; consent_id = none }
      | none ↦ record {
        decision = require_consent;
        journal = journal;
        consent_id = some (consent_id_for principal op);
      }
    ]
apply_consent consents principal op action journal = record {
  decision = action;
  journal = journal;
  consent_id = none;
}

unfoldable pub resolve : PolicyDoc → ConsentTable → String → String → Resolved
unfolding apply_consent
resolve doc consents principal op =
    let action = (eval_policy doc principal op).action in
    apply_consent consents principal op action.decision action.journal

abbrev pub same_action : LawAction → LawAction → Bool
same_action allow allow = true
same_action deny deny = true
same_action require_consent require_consent = true
same_action _ _ = false

-- one row of the divergence ledger
pub record Divergence : Type 0 where
  pub principal : String
  pub op : String
  pub primary : LawAction
  pub shadow : LawAction

-- the state of the law compartment that law.check@1 reads and writes
pub record Law : Type 0 where
  pub policy : PolicyDoc
  pub shadow : Option PolicyDoc
  pub divergences : List Divergence
  pub consents : ConsentTable
  pub forbidden : ForbiddenTable
  pub observed : ℕ

-- `observe`
unfoldable pub observe : String → String → LawAction → LawAction → List Divergence → List Divergence
observe principal op primary shadow ledger =
    if same_action primary shadow
    then ledger
    else ledger
      ++ record { principal = principal; op = op; primary = primary; shadow = shadow } ∷ []

-- the policy's resolution, under the forbidden overlay
unfoldable pub primary_resolution : Law → String → String → Resolved
unfolding resolve
primary_resolution s principal op =
    if is_forbidden principal op s.forbidden
    then record { decision = deny; journal = true; consent_id = none }
    else resolve s.policy s.consents principal op

-- law.check@1: the decision, whether it is journaled, and the state after it
unfoldable pub law_check : Law → String → String → Resolved × Law
unfolding primary_resolution observe
law_check s principal op =
    let primary = primary_resolution s principal op in
    let divergences : List Divergence = elim s.shadow [
      | none ↦ s.divergences
      | some doc ↦
          observe principal op primary.decision (resolve doc s.consents principal op).decision
            s.divergences
    ] in
    (primary, record s { divergences = divergences; observed = s.observed + 1 })
