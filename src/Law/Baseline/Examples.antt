-- ===== src/Law/Baseline/Examples.antt =====
-- The shipped policy of plugins/vivim-law/src/policy.ts at concrete inputs.
use vivim_omega.Common.{String, ◌≡◌, ◌≢◌, refl, true, false, none, [], ◌∷◌}
use vivim_omega.Common.Dict
use vivim_omega.Common.StrSet
use vivim_omega.Common.Text.{strip_prefix, strip_suffix}
use vivim_omega.Law.Policy.{allow, op_matches, eval_policy, classify_risk, length}
use vivim_omega.Law.Policy.Specificity.{exact_row, most_specific, better}
use vivim_omega.Law.ConsentId.{consent_id_for, stable_hash}
use vivim_omega.Law.Consent.{has_matching_grant}
use vivim_omega.Law.Forbidden.{is_forbidden}
use vivim_omega.Law.Check.{Law, law_check}
use vivim_omega.Law.Baseline.{law_policy}
use vivim_omega.Law.Baseline.Closed.{IsUnknown, unknown_fails_closed}

abbrev run : String
run = "vivim.run"

abbrev op : String
op = "message.send@1"

op-IsUnknown : IsUnknown op
unfolding exact_row most_specific op_matches strip_prefix strip_suffix better
op-IsUnknown = (refl, refl)

abbrev consented : Law
consented = record {
  policy = law_policy;
  shadow = none;
  divergences = [];
  consents = record {
    grants =
        (
          consent_id_for run op,
          record {
            consent_id = consent_id_for run op;
            principal = none;
            scope = none;
            granted_at = 3;
            generation = 1;
            active = true;
            revoked_at = none;
          },
        )
        ∷ [];
    gen = 1;
  };
  forbidden = [];
  observed = 0;
}

consented-allowed : (law_check consented run op).0.decision ≡ allow
unfolding law_check is_forbidden StrSet.has Dict.get eval_policy op_matches strip_suffix
    classify_risk Dict.put length strip_prefix has_matching_grant consent_id_for stable_hash
consented-allowed = refl

unknown_fails_closed_example :
    (run ≢ "omega.attacker")
    × (is_forbidden run op consented.forbidden ≡ false)
    × (¬ (has_matching_grant run op consented.consents ≡ none))
unknown_fails_closed_example =
    unknown_fails_closed consented run op refl op-IsUnknown consented-allowed
