-- ===== src/Law/Policy.antt =====
-- The policy interpreter, plugins/vivim-law/src/policy.ts. The policy document is data; the index
-- that `riskIndex` caches under it is a function of the document. `Array.sort` with a comparator is
-- a stable sort, here by insertion. The reasons are texts for people.
pub mod Specificity
pub mod Rules
mod Examples
use Prim.Native.Nat.{compare, Ordering}
use Prim.Native.Char.{Char, code}
use vivim_omega.Common.{
  ℕ, ◌+◌, String, Bool, true, false, ◌&&◌, ◌||◌, not, Option, none, some, List, [], ◌∷◌, ◌==◌, ltb,
  leb, if◌then◌else◌, is_some, or_else,
}
use vivim_omega.Common.Dict
use vivim_omega.Common.Dict.{Dict}
use vivim_omega.Common.Text.{strip_prefix, strip_suffix}

pub data RiskClass : Type 0 where
  read mutation external_mutation : RiskClass

pub data LawAction : Type 0 where
  allow deny require_consent : LawAction

-- `match` of a rule: an absent field matches everything
pub record PolicyRule : Type 0 where
  pub principal : Option String
  pub op : Option String
  pub decision : LawAction
  pub reason : String

pub record RiskEntry : Type 0 where
  pub op : String
  pub risk : RiskClass

pub record RiskDefault : Type 0 where
  pub decision : LawAction
  pub journal : Bool
  pub reason : String

pub record PolicyDoc : Type 0 where
  pub policy_id : String
  pub version : String
  pub risk_table : List RiskEntry
  pub default_risk : RiskClass
  pub risk_defaults : RiskClass → RiskDefault
  pub rules : List PolicyRule

pub record PolicyEval : Type 0 where
  pub action : RiskDefault
  pub risk : RiskClass
  pub rule : Option PolicyRule

-- `s.length`, in UTF-16 units
unfoldable pub length : String → ℕ
length String.[] = 0
length (String.◌∷◌ c s) = (if ltb (code c) 0x10000 then 1 else 2) + length s

unfoldable pub op_matches : String → String → Bool
op_matches pat op =
    if pat == "*" || pat == op
    then true
    else elim (strip_suffix "*" pat) [ none ↦ false | some start ↦ is_some (strip_prefix start op) ]

abbrev pub is_prefix_row : RiskEntry → Bool
is_prefix_row r = is_some (strip_suffix "*" r.op)

-- the map of exact rows, the first row of an op wins
unfoldable pub exact_rows : List RiskEntry → Dict RiskClass → Dict RiskClass
exact_rows [] exact = exact
exact_rows (r ∷ rows) exact =
    exact_rows rows
      (if is_prefix_row r || Dict.has r.op exact then exact else Dict.put r.op r.risk exact)

-- a row goes behind those that are as long or longer
unfoldable pub insert_row : RiskEntry → List RiskEntry → List RiskEntry
insert_row r [] = r ∷ []
insert_row r (x ∷ xs) = if leb (length r.op) (length x.op) then x ∷ insert_row r xs else r ∷ x ∷ xs

-- the prefix rows, longest first, rows of one length in table order
unfoldable pub prefix_rows : List RiskEntry → List RiskEntry → List RiskEntry
unfolding insert_row
prefix_rows [] sorted = sorted
prefix_rows (r ∷ rows) sorted =
    prefix_rows rows (if is_prefix_row r then insert_row r sorted else sorted)

unfoldable pub first_match : String → List RiskEntry → Option RiskEntry
first_match op [] = none
first_match op (r ∷ rows) = if op_matches r.op op then some r else first_match op rows

unfoldable pub classify_risk : PolicyDoc → String → RiskClass
unfolding exact_rows prefix_rows first_match
classify_risk doc op = elim (Dict.get op (exact_rows doc.risk_table [])) [
  | some risk ↦ risk
  | none ↦ elim (first_match op (prefix_rows doc.risk_table [])) [
    | some r ↦ r.risk
    | none ↦ doc.default_risk
  ]
]

unfoldable pub rule_matches : PolicyRule → String → String → Bool
rule_matches rule principal op =
    elim rule.principal [ none ↦ true | some p ↦ p == principal ]
    && elim rule.op [ none ↦ true | some pat ↦ op_matches pat op ]

abbrev pub is_deny : LawAction → Bool
is_deny deny = true
is_deny _ = false

-- the first matching row among the deny rows (`denying`) or among the others
unfoldable pub find_rule : Bool → String → String → List PolicyRule → Option PolicyRule
unfolding rule_matches
find_rule denying principal op [] = none
find_rule denying principal op (rule ∷ rules) =
    if (if denying then is_deny rule.decision else not (is_deny rule.decision))
      && rule_matches rule principal op
    then some rule
    else find_rule denying principal op rules

unfoldable pub eval_policy : PolicyDoc → String → String → PolicyEval
unfolding find_rule
eval_policy doc principal op = elim (find_rule true principal op doc.rules) [
  | some rule ↦ record {
    action = record { decision = deny; journal = true; reason = rule.reason };
    risk = classify_risk doc op;
    rule = some rule;
  }
  | none ↦ elim (find_rule false principal op doc.rules) [
    | some rule ↦ record {
      action = record { decision = rule.decision; journal = true; reason = rule.reason };
      risk = classify_risk doc op;
      rule = some rule;
    }
    | none ↦ record {
      action = doc.risk_defaults (classify_risk doc op);
      risk = classify_risk doc op;
      rule = none;
    }
  ]
]
