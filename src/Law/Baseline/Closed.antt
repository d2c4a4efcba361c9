-- ===== src/Law/Baseline/Closed.antt =====
-- Operations that the shipped policy has no row for, plugins/vivim-law/src/policy.ts.
use vivim_omega.Common.{
  String, ◌≡◌, ◌≢◌, refl, false, none, ◌==◌, ◌∙◌, ap, sym, arith, ==_ne, Bool-cases, inl, inr,
}
use vivim_omega.Common.Text.{strip_suffix}
use vivim_omega.Law.Policy.{
  allow, deny, require_consent, external_mutation, eval_policy, find_rule, rule_matches,
  classify_risk, op_matches,
}
use vivim_omega.Law.Policy.Specificity.{exact_row, most_specific, classify_risk_lem, risk_of}
use vivim_omega.Law.Consent.{has_matching_grant}
use vivim_omega.Law.Forbidden.{is_forbidden}
use vivim_omega.Law.Check.{Law, law_check}
use vivim_omega.Law.Check.Decisions.{allow_iff, policy_decision}
use vivim_omega.Law.Baseline.{law_policy}

-- no row of the shipped risk table is about the op
abbrev pub IsUnknown : String → Type 0
IsUnknown op =
    (exact_row op law_policy.risk_table ≡ none)
    × (most_specific op law_policy.risk_table none ≡ none)

classify_unknown : (op : String) → IsUnknown op → classify_risk law_policy op ≡ external_mutation
unfolding risk_of
classify_unknown op h = ground (arith, classify_risk_lem law_policy op, h.0, h.1)

eval_unknown :
    (principal op : String)
    → IsUnknown op
    → principal ≢ "omega.attacker"
    → (eval_policy law_policy principal op).action.decision ≡ require_consent
unfolding eval_policy find_rule rule_matches op_matches strip_suffix
eval_unknown principal op h ne =
    let other : ("omega.attacker" == principal) ≡ false =
      ==_ne "omega.attacker" principal (λ e. ne (sym e)) in
    elim (Bool-cases ("credential.put@1" == op)) [
      | inl e ↦ ground (arith, other, e)
      | inr e ↦ ground (arith, other, e, classify_unknown op h)
    ]

eval_attacker : (op : String) → (eval_policy law_policy "omega.attacker" op).action.decision ≡ deny
unfolding eval_policy find_rule rule_matches
eval_attacker op = refl

-- Under the shipped policy an operation that no row of the risk table is about fails closed: it is
-- allowed to a principal only by a matching consent, and never to one that the deny row names or for
-- which it is forbidden.
pub unknown_fails_closed :
    (s : Law) (principal op : String)
    → s.policy ≡ law_policy
    → IsUnknown op
    → (law_check s principal op).0.decision ≡ allow
    → (principal ≢ "omega.attacker")
      × (is_forbidden principal op s.forbidden ≡ false)
      × (¬ (has_matching_grant principal op s.consents ≡ none))
unknown_fails_closed s principal op same h allowed =
    let (free, why) = (allow_iff s principal op).0 allowed in
    let at_policy : policy_decision s.policy principal op
        ≡ policy_decision law_policy principal op =
      ap (λ d. policy_decision d principal op) same in
    let known : principal ≢ "omega.attacker" = λ e.
      ground
        (arith, why, at_policy ∙ ap (λ p. policy_decision law_policy p op) e, eval_attacker op) in
    (
      known,
      free,
      λ missing. ground (arith, why, at_policy, eval_unknown principal op h known, missing),
    )
