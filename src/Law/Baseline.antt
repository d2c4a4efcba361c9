-- ===== src/Law/Baseline.antt =====
-- The policy that vivim.law is shipped with, LAW_POLICY_V1 of plugins/vivim-law/src/policy.ts, and the
-- shadow policies derived from it (`normalizeShadowSpec`; `registerShadow` and `clearShadow` of
-- amendment.ts). The model's documents carry all three risk defaults, so the check for a missing one
-- has nothing to do. Reasons and descriptions are left out.
pub mod Closed
mod Examples
use vivim_omega.Common.{
  String, Bool, true, false, Option, none, some, List, [], ◌∷◌, or_else, if◌then◌else◌,
}
use vivim_omega.Law.Policy.{
  RiskClass, read, mutation, external_mutation, LawAction, allow, deny, require_consent, PolicyRule,
  RiskEntry, RiskDefault, PolicyDoc,
}
use vivim_omega.Law.Check.{Law}

abbrev pub risk_table : List RiskEntry
risk_table =
    record { op = "risky.op@1"; risk = external_mutation }
    ∷ record { op = "risky.read@1"; risk = read }
    ∷ record { op = "vault.roundtrip@1"; risk = external_mutation }
    ∷ record { op = "providers.session.start@1"; risk = mutation }
    ∷ record { op = "vault.*"; risk = mutation }
    ∷ record { op = "note.*"; risk = mutation }
    ∷ record { op = "credential.put@1"; risk = mutation }
    ∷ record { op = "chat.open@1"; risk = mutation }
    ∷ record { op = "chat.append@1"; risk = mutation }
    ∷ record { op = "run.process.call@1"; risk = mutation }
    ∷ record { op = "forge.author.init@1"; risk = mutation }
    ∷ record { op = "intent.submit@1"; risk = mutation }
    ∷ record { op = "intent.resolve@1"; risk = mutation }
    ∷ record { op = "intent.step.execute@1"; risk = mutation }
    ∷ record { op = "intent.cancel@1"; risk = mutation }
    ∷ record { op = "intent.resolution@1"; risk = mutation }
    ∷ record { op = "law.principal.register@1"; risk = mutation }
    ∷ record { op = "law.principal.retire@1"; risk = mutation }
    ∷ record { op = "law.audit.drain@1"; risk = mutation }
    ∷ []

abbrev pub baseline_defaults : RiskClass → RiskDefault
baseline_defaults read = record { decision = allow; journal = false; reason = "" }
baseline_defaults mutation = record { decision = allow; journal = true; reason = "" }
baseline_defaults external_mutation = record {
  decision = require_consent;
  journal = true;
  reason = "";
}

abbrev pub rules : List PolicyRule
rules =
    record { principal = some "omega.attacker"; op = none; decision = deny; reason = "" }
    ∷ record {
      principal = none;
      op = some "credential.put@1";
      decision = require_consent;
      reason = "";
    }
    ∷ []

abbrev pub law_policy : PolicyDoc
law_policy = record {
  policy_id = "law.policy";
  version = "1.8.0";
  risk_table = risk_table;
  default_risk = external_mutation;
  risk_defaults = baseline_defaults;
  rules = rules;
}

pub record ShadowSpec : Type 0 where
  pub policy_id : Option String
  pub deny_external_mutations : Bool
  pub policy : Option PolicyDoc

abbrev pub denying : (RiskClass → RiskDefault) → RiskClass → RiskDefault
denying defaults external_mutation = record { decision = deny; journal = true; reason = "" }
denying defaults risk = defaults risk

unfoldable pub normalize_shadow_spec : PolicyDoc → ShadowSpec → PolicyDoc
normalize_shadow_spec primary spec =
    let doc = or_else spec.policy primary in
    record doc {
      policy_id = or_else spec.policy_id doc.policy_id;
      risk_defaults =
          if spec.deny_external_mutations then denying doc.risk_defaults else doc.risk_defaults;
    }

-- a new shadow starts with an empty ledger
unfoldable pub register_shadow : ShadowSpec → Law → Law
unfolding normalize_shadow_spec
register_shadow spec s = record s {
  shadow = some (normalize_shadow_spec s.policy spec);
  divergences = [];
}

unfoldable pub clear_shadow : Law → Law
clear_shadow s = record s { shadow = none }
