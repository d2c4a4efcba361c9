-- ===== src/Law/Check/Examples.antt =====
-- law.check@1 of plugins/vivim-law/src/index.ts at concrete inputs: a policy that wants consent for
-- everything, no consent granted, and a shadow policy that allows everything.
use vivim_omega.Common.{
  ◌+◌, String, ◌≡◌, ◌↔◌, ◌⊎◌, true, false, none, some, [], length, is_some, if◌then◌else◌,
}
use vivim_omega.Law.Policy.{read, LawAction, allow, require_consent, PolicyDoc}
use vivim_omega.Law.Consent
use vivim_omega.Law.Consent.{has_matching_grant}
use vivim_omega.Law.Forbidden.{is_forbidden}
use vivim_omega.Law.Check.{Law, law_check, resolve, same_action, primary_resolution}
use vivim_omega.Law.Check.Decisions.{decision_of, policy_decision, allow_iff, shadow_lem}

abbrev always : LawAction → PolicyDoc
always decision = record {
  policy_id = "p";
  version = "1";
  risk_table = [];
  default_risk = read;
  risk_defaults = λ risk. record { decision = decision; journal = true; reason = "" };
  rules = [];
}

abbrev law : Law
law = record {
  policy = always require_consent;
  shadow = none;
  divergences = [];
  consents = Consent.empty;
  forbidden = [];
  observed = 0;
}

abbrev run : String
run = "vivim.run"

abbrev op : String
op = "vault.put@1"

allow_iff_example : decision_of law run op ≡ allow ↔ (
    (is_forbidden run op law.forbidden ≡ false)
    × ((policy_decision law.policy run op ≡ allow)
        ⊎ ((policy_decision law.policy run op ≡ require_consent)
            × (is_some (has_matching_grant run op law.consents) ≡ true))))
allow_iff_example = allow_iff law run op

shadow_lem_example :
    let s' : Law = record law { shadow = some (always allow) } in
    ((law_check s' run op).0 ≡ (law_check (record law { shadow = none }) run op).0)
    × (length (law_check s' run op).1.divergences
        ≡ 0
          + (if same_action
                (primary_resolution law run op).decision
                (resolve (always allow) law.consents run op).decision
              then 0
              else 1))
shadow_lem_example = shadow_lem law (always allow) run op
