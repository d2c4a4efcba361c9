-- ===== src/Law/Policy/Rules.antt =====
-- Deny rows and other rules, `evalPolicy` of plugins/vivim-law/src/policy.ts.
use vivim_omega.Common.{
  String, ◌≡◌, refl, Bool, true, false, ◌&&◌, ◌↔◌, ◌⊎◌, none, some, List, [], ◌∷◌, arith, any,
  Option-cases, inl, inr,
}
use vivim_omega.Law.Policy.{
  deny, PolicyRule, PolicyDoc, is_deny, rule_matches, find_rule, classify_risk, eval_policy,
}

-- some deny row matches
abbrev pub has_deny : String → String → List PolicyRule → Bool
has_deny principal op = any (λ r. is_deny r.decision && rule_matches r principal op)

-- some row matches
abbrev pub has_rule : String → String → List PolicyRule → Bool
has_rule principal op = any (λ r. rule_matches r principal op)

find_deny :
    (p op : String) (rules : List PolicyRule)
    → find_rule true p op rules ≡ none
    → has_deny p op rules ≡ false
unfolding find_rule
find_deny p op [] e = refl
find_deny p op (r ∷ rules) e = ground (arith, e, find_deny p op rules)

found_deny :
    (p op : String) (rules : List PolicyRule) (r : PolicyRule)
    → find_rule true p op rules ≡ some r
    → has_deny p op rules ≡ true
unfolding find_rule
found_deny p op [] r e = cc
found_deny p op (x ∷ rules) r e = ground (arith, e, found_deny p op rules r)

found_other :
    (p op : String) (rules : List PolicyRule) (r : PolicyRule)
    → find_rule false p op rules ≡ some r
    → is_deny r.decision ≡ false
unfolding find_rule
found_other p op [] r e = cc
found_other p op (x ∷ rules) r e = ground (arith, e, found_other p op rules r)

found_rule :
    (p op : String) (rules : List PolicyRule) (r : PolicyRule)
    → find_rule false p op rules ≡ some r
    → has_rule p op rules ≡ true
unfolding find_rule
found_rule p op [] r e = cc
found_rule p op (x ∷ rules) r e = ground (arith, e, found_rule p op rules r)

find_none :
    (p op : String) (rules : List PolicyRule)
    → find_rule true p op rules ≡ none
    → find_rule false p op rules ≡ none
    → has_rule p op rules ≡ false
unfolding find_rule
find_none p op [] d e = refl
find_none p op (r ∷ rules) d e = ground (arith, d, e, find_none p op rules)

-- The policy denies exactly where some deny row matches, wherever it stands in the table, or no row
-- matches at all and the default of the op's risk class is deny.
pub deny_sticky :
    (doc : PolicyDoc) (principal op : String)
    → ((eval_policy doc principal op).action.decision ≡ deny) ↔ (
        (has_deny principal op doc.rules ≡ true)
        ⊎ ((has_rule principal op doc.rules ≡ false)
            × ((doc.risk_defaults (classify_risk doc op)).decision ≡ deny)))
unfolding eval_policy
deny_sticky doc principal op = elim (Option-cases (find_rule true principal op doc.rules)) [
  | inr (r, e) ↦ (λ d. inl (found_deny principal op doc.rules r e), λ h. rw (e, eval_policy))
  | inl no_deny ↦ elim (Option-cases (find_rule false principal op doc.rules)) [
    | inr (r, e) ↦ (
      λ d. absurd (ground (arith, d, no_deny, e, found_other principal op doc.rules r e)),
      λ h. absurd (
          ground (
            arith,
            h,
            find_deny principal op doc.rules no_deny,
            found_rule principal op doc.rules r e,
          )),
    )
    | inl no_rule ↦ (
      λ d.
          inr
            (find_none principal op doc.rules no_deny no_rule, ground (arith, d, no_deny, no_rule)),
      λ h. ground (arith, h, no_deny, no_rule, find_deny principal op doc.rules no_deny),
    )
  ]
]
