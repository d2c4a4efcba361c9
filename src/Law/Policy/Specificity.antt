-- ===== src/Law/Policy/Specificity.antt =====
-- Exact and prefix rows of the risk table, `classifyRisk` of plugins/vivim-law/src/policy.ts.
use vivim_omega.Common.{
  ℕ, ◌≤◌, String, ◌≡◌, refl, true, ◌&&◌, not, Option, none, some, List, [], ◌∷◌, ◌==◌, leb, eq_iff,
  arith, if◌then◌else◌, or_else, Bool-cases, Option-cases, inl, inr, All, leb→le, ◌∙◌, ap,
}
use vivim_omega.Common.Dict
use vivim_omega.Common.Dict.{Dict, get-put}
use vivim_omega.Law.Policy.{
  RiskClass, RiskEntry, PolicyDoc, length, op_matches, is_prefix_row, exact_rows, insert_row,
  prefix_rows, first_match, classify_risk,
}

-- the first row of the table that names the op exactly
unfoldable pub exact_row : String → List RiskEntry → Option RiskEntry
exact_row op [] = none
exact_row op (r ∷ rows) = if not (is_prefix_row r) && r.op == op then some r else exact_row op rows

-- scanning the table, a matching prefix row replaces the best so far if it is strictly longer
unfoldable pub better : String → RiskEntry → Option RiskEntry → Option RiskEntry
better op r best =
    if is_prefix_row r && op_matches r.op op
    then elim best [
      | none ↦ some r
      | some x ↦ if leb (length r.op) (length x.op) then some x else some r
    ]
    else best

unfoldable pub most_specific : String → List RiskEntry → Option RiskEntry → Option RiskEntry
most_specific op [] best = best
most_specific op (r ∷ rows) best = most_specific op rows (better op r best)

abbrev AtMost : ℕ → List RiskEntry → Type 0
AtMost n = All (λ (r : RiskEntry). length r.op ≤ n)

-- no row is longer than one that stands before it
abbrev IsSorted : List RiskEntry → Type 0
IsSorted [] = Unit
IsSorted (r ∷ rows) = AtMost (length r.op) rows × IsSorted rows

AtMost-insert :
    (n : ℕ) (r : RiskEntry) (xs : List RiskEntry)
    → length r.op ≤ n
    → AtMost n xs
    → AtMost n (insert_row r xs)
unfolding insert_row
AtMost-insert n r [] h hs = (h, tt)
AtMost-insert n r (x ∷ xs) h hs = ground (arith, h, hs.0, hs.1, AtMost-insert n r xs h hs.1)

AtMost-mono : (m n : ℕ) (xs : List RiskEntry) → m ≤ n → AtMost m xs → AtMost n xs
AtMost-mono m n [] le h = tt
AtMost-mono m n (x ∷ xs) le h = (omega (arith, h.0), AtMost-mono m n xs le h.1)

IsSorted-insert : (r : RiskEntry) (xs : List RiskEntry) → IsSorted xs → IsSorted (insert_row r xs)
unfolding insert_row
IsSorted-insert r [] h = (tt, tt)
IsSorted-insert r (x ∷ xs) h = elim (Bool-cases (leb (length r.op) (length x.op))) [
  | inl e ↦ rw e (AtMost-insert (length x.op) r xs (leb→le _ _ e) h.0, IsSorted-insert r xs h.1)
  | inr e ↦
      rw e
        ((ground (arith, e), AtMost-mono (length x.op) (length r.op) xs (ground (arith, e)) h.0), h)
]

-- a match among rows no longer than n is no longer than n
first_match-le :
    (op : String) (n : ℕ) (xs : List RiskEntry) (x : RiskEntry)
    → AtMost n xs
    → first_match op xs ≡ some x
    → length x.op ≤ n
unfolding first_match
first_match-le op n [] x h e = cc
first_match-le op n (y ∷ xs) x h e = elim (Bool-cases (op_matches y.op op)) [
  | inl m ↦ ground (arith, h.0, m, e)
  | inr m ↦ first_match-le op n xs x h.1 (rw (m, first_match) at e)
]

first_match-insert :
    (op : String) (r : RiskEntry) (xs : List RiskEntry)
    → is_prefix_row r ≡ true
    → IsSorted xs
    → first_match op (insert_row r xs) ≡ better op r (first_match op xs)
unfolding first_match insert_row better
first_match-insert op r [] p h = ground (arith, p)
first_match-insert op r (x ∷ xs) p h = elim (Bool-cases (leb (length r.op) (length x.op))) [
  | inl e ↦ ground (arith, e, p, first_match-insert op r xs p h.1)
  | inr e ↦ elim (Option-cases (first_match op xs)) [
    | inl none_left ↦ ground (arith, e, p, none_left)
    | inr (y, found) ↦ ground (arith, e, p, found, first_match-le op (length x.op) xs y h.0 found)
  ]
]

first_match-prefix_rows :
    (op : String) (rows sorted : List RiskEntry)
    → IsSorted sorted
    → first_match op (prefix_rows rows sorted) ≡ most_specific op rows (first_match op sorted)
unfolding prefix_rows most_specific
first_match-prefix_rows op [] sorted h = refl
first_match-prefix_rows op (r ∷ rows) sorted h = elim (Bool-cases (is_prefix_row r)) [
  | inl e ↦
      rw (e, prefix_rows)
        (first_match-prefix_rows op rows (insert_row r sorted) (IsSorted-insert r sorted h)
          ∙ ap (most_specific op rows) (first_match-insert op r sorted e h))
  | inr e ↦
      rw (e, prefix_rows)
        (first_match-prefix_rows op rows sorted h
          ∙ ap (most_specific op rows) (unfold better in ground (arith, e)))
]

unfoldable pub risk_of : Option RiskEntry → Option RiskClass
risk_of none = none
risk_of (some r) = some r.risk

abbrev pub first_some : Option RiskClass → Option RiskClass → Option RiskClass
first_some none b = b
first_some (some a) b = some a

get-exact_rows :
    (op : String) (rows : List RiskEntry) (exact : Dict RiskClass)
    → Dict.get op (exact_rows rows exact)
      ≡ first_some (Dict.get op exact) (risk_of (exact_row op rows))
unfolding exact_rows exact_row risk_of
get-exact_rows op [] exact = ground arith
get-exact_rows op (r ∷ rows) exact = ground (
  arith,
  get-exact_rows op rows exact,
  get-exact_rows op rows (Dict.put r.op r.risk exact),
  get-put r.op op r.risk exact,
  eq_iff r.op op,
)

-- An op has the class of the first row that names it exactly; without one, of the longest matching
-- prefix row, the first of those in the table; without one, the default class.
pub classify_risk_lem :
    (doc : PolicyDoc) (op : String)
    → classify_risk doc op
      ≡ or_else
          (first_some
            (risk_of (exact_row op doc.risk_table))
            (risk_of (most_specific op doc.risk_table none)))
          doc.default_risk
unfolding classify_risk
classify_risk_lem doc op =
    let e = get-exact_rows op doc.risk_table [] in
    let p = first_match-prefix_rows op doc.risk_table [] tt in
    unfold risk_of first_match Dict.get in ground (arith, e, p)
