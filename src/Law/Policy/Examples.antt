-- ===== src/Law/Policy/Examples.antt =====
-- The policy of plugins/vivim-law/src/policy.ts at concrete inputs: rows for whole families of
-- operations, an exact row and two rules.
use vivim_omega.Common.{◌≡◌, ◌↔◌, ◌⊎◌, refl, true, false, none, some, [], ◌∷◌, or_else}
use vivim_omega.Common.Dict
use vivim_omega.Common.Text.{strip_prefix, strip_suffix}
use vivim_omega.Law.Policy.{
  RiskClass, read, mutation, external_mutation, allow, deny, require_consent, RiskDefault,
  PolicyDoc, classify_risk, eval_policy, exact_rows, prefix_rows, insert_row, first_match,
  op_matches, length,
}
use vivim_omega.Law.Policy.Specificity.{
  classify_risk_lem, exact_row, risk_of, most_specific, first_some,
}
use vivim_omega.Law.Policy.Rules.{deny_sticky, has_deny, has_rule}

abbrev defaults : RiskClass → RiskDefault
defaults read = record { decision = allow; journal = false; reason = "" }
defaults mutation = record { decision = allow; journal = true; reason = "" }
defaults external_mutation = record { decision = require_consent; journal = true; reason = "" }

abbrev doc : PolicyDoc
doc = record {
  policy_id = "p";
  version = "1";
  risk_table =
      record { op = "vault.*"; risk = mutation }
      ∷ record { op = "vault.read.*"; risk = read }
      ∷ record { op = "provider.call@1"; risk = external_mutation }
      ∷ [];
  default_risk = external_mutation;
  risk_defaults = defaults;
  rules =
      record { principal = none; op = some "vault.*"; decision = allow; reason = "" }
      ∷ record { principal = some "vivim.evil"; op = none; decision = deny; reason = "" }
      ∷ [];
}

classify_risk_lem_example :
    classify_risk doc "vault.read.x@1"
    ≡ or_else
        (first_some
          (risk_of (exact_row "vault.read.x@1" doc.risk_table))
          (risk_of (most_specific "vault.read.x@1" doc.risk_table none)))
        doc.default_risk
classify_risk_lem_example = classify_risk_lem doc "vault.read.x@1"

-- the longer row wins, though it stands behind
classify_vault_read : classify_risk doc "vault.read.x@1" ≡ read
unfolding classify_risk exact_rows prefix_rows insert_row first_match op_matches length Dict.get
    strip_prefix strip_suffix Dict.put
classify_vault_read = refl

deny_sticky_example : ((eval_policy doc "vivim.evil" "vault.put@1").action.decision ≡ deny) ↔ (
    (has_deny "vivim.evil" "vault.put@1" doc.rules ≡ true)
    ⊎ ((has_rule "vivim.evil" "vault.put@1" doc.rules ≡ false)
        × ((doc.risk_defaults (classify_risk doc "vault.put@1")).decision ≡ deny)))
deny_sticky_example = deny_sticky doc "vivim.evil" "vault.put@1"
