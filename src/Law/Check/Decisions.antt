-- ===== src/Law/Check/Decisions.antt =====
-- The decisions of law.check@1, plugins/vivim-law/src/index.ts: the forbidden overlay, the policy,
-- the consents and the shadow.
use vivim_omega.Common.{
  ◌+◌, String, ◌≡◌, ◌↔◌, ◌⊎◌, refl, true, false, none, some, List, [], ◌∷◌, arith, if◌then◌else◌,
  is_some, length, length-append,
}
use vivim_omega.Law.Policy.{LawAction, allow, require_consent, PolicyDoc, eval_policy}
use vivim_omega.Law.Consent.{has_matching_grant}
use vivim_omega.Law.Forbidden.{is_forbidden}
use vivim_omega.Law.Check.{
  Law, Divergence, law_check, resolve, apply_consent, primary_resolution, observe, same_action,
}

-- the decision of law.check@1 for a call
abbrev pub decision_of : Law → String → String → LawAction
decision_of s principal op = (law_check s principal op).0.decision

abbrev pub policy_decision : PolicyDoc → String → String → LawAction
policy_decision doc principal op = (eval_policy doc principal op).action.decision

-- A call is allowed exactly when its op is not forbidden to the principal and the policy either
-- allows it or requires a consent that an active, matching grant gives.
pub allow_iff :
    (s : Law) (principal op : String)
    → decision_of s principal op ≡ allow ↔ (
        (is_forbidden principal op s.forbidden ≡ false)
        × ((policy_decision s.policy principal op ≡ allow)
            ⊎ ((policy_decision s.policy principal op ≡ require_consent)
                × (is_some (has_matching_grant principal op s.consents) ≡ true))))
unfolding law_check primary_resolution resolve apply_consent
allow_iff s principal op = ground arith

length-observe :
    (principal op : String) (primary shadow : LawAction) (ledger : List Divergence)
    → length (observe principal op primary shadow ledger)
      ≡ length ledger + (if same_action primary shadow then 0 else 1)
unfolding observe
length-observe principal op primary shadow ledger =
    let row : Divergence = record {
      principal = principal;
      op = op;
      primary = primary;
      shadow = shadow;
    } in
    ground (arith, length-append ledger (row ∷ []))

primary_resolution-shadow :
    (s : Law) (doc : PolicyDoc) (principal op : String)
    → primary_resolution (record s { shadow = some doc }) principal op
      ≡ primary_resolution (record s { shadow = none }) principal op
unfolding primary_resolution
primary_resolution-shadow s doc principal op = refl

-- With a shadow policy the decision is the one given without it, and the divergence ledger grows by
-- one row if the shadow policy, under the same consents, decides otherwise, and else by none.
pub shadow_lem :
    (s : Law) (doc : PolicyDoc) (principal op : String)
    → let s' : Law = record s { shadow = some doc } in
      ((law_check s' principal op).0 ≡ (law_check (record s { shadow = none }) principal op).0)
      × (length (law_check s' principal op).1.divergences
          ≡ length s.divergences
            + (if same_action
                  (primary_resolution s principal op).decision
                  (resolve doc s.consents principal op).decision
                then 0
                else 1))
unfolding law_check
shadow_lem s doc principal op =
    let s' : Law = record s { shadow = some doc } in
    (
      primary_resolution-shadow s doc principal op,
      length-observe principal op (primary_resolution s' principal op).decision
          (resolve doc s.consents principal op).decision s.divergences,
    )
