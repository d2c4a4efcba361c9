-- ===== src/Vault/Rows.antt =====
-- The tables of plugins/vivim-vault/src/sql.ts as lists: how a row that is added or deleted changes
-- what a lookup finds, and the revisions that a table holds of one object.
pub mod Deleted
pub mod Appended
use vivim_omega.Common.{
  ℕ, zero, suc, ◌-◌, ◌<◌, ◌≤◌, String, Bool, true, false, ◌&&◌, Option, none, some, List, [], ◌∷◌,
  ◌++◌, ◌==◌, ◌≡◌, refl, eqb, if◌then◌else◌, length, get_last?, or_else, All, arith, eq_iff,
  Bool-cases, Option-cases, inl, inr, ◌≢◌, ◌⊎◌, sym, ◌∙◌, ap, All-append,
}
use mathlib.Core.Path.{subst}
use vivim_omega.Vault.Store.{ObjectRow, find_row, latest_row, is_at}
use vivim_omega.Vault.Compact.{delete_row, take_revs, candidates}

-- the lookup in two tables
abbrev pub first_of {ℓ} : {A : Type ℓ} → Option A → Option A → Option A
first_of none b = b
first_of (some a) b = some a

pub find_row-append :
    (ns id : String) (rev : ℕ) (xs ys : List ObjectRow)
    → find_row ns id rev (xs ++ ys) ≡ first_of (find_row ns id rev xs) (find_row ns id rev ys)
unfolding find_row
find_row-append ns id rev [] ys = refl
find_row-append ns id rev (x ∷ xs) ys = ground (arith, find_row-append ns id rev xs ys)

pub find_row-delete_row :
    (ns id : String) (rev : ℕ) (xs : List ObjectRow)
    → find_row ns id rev (delete_row ns id rev xs) ≡ none
unfolding find_row delete_row
find_row-delete_row ns id rev [] = refl
find_row-delete_row ns id rev (x ∷ xs) = ground (arith, find_row-delete_row ns id rev xs)

-- one row's key
abbrev pub same_key : String → String → ℕ → String → String → ℕ → Bool
same_key ns id rev ns' id' rev' = (ns == ns' && id == id') && eqb rev rev'

pub find_row-delete_row_other :
    (ns id : String) (rev : ℕ) (ns' id' : String) (rev' : ℕ) (xs : List ObjectRow)
    → same_key ns id rev ns' id' rev' ≡ false
    → find_row ns' id' rev' (delete_row ns id rev xs) ≡ find_row ns' id' rev' xs
unfolding find_row delete_row
find_row-delete_row_other ns id rev ns' id' rev' [] other = refl
find_row-delete_row_other ns id rev ns' id' rev' (x ∷ xs) other = ground (
  arith,
  find_row-delete_row_other ns id rev ns' id' rev' xs other,
  eq_iff x.ns ns,
  eq_iff x.id id,
  eq_iff x.ns ns',
  eq_iff x.id id',
  eq_iff ns ns',
  eq_iff id id',
)

pub latest_row-delete_row_other :
    (ns id : String) (rev : ℕ) (ns' id' : String) (xs : List ObjectRow)
    → (ns == ns' && id == id') ≡ false
    → latest_row ns' id' (delete_row ns id rev xs) ≡ latest_row ns' id' xs
unfolding latest_row delete_row
latest_row-delete_row_other ns id rev ns' id' [] other = refl
latest_row-delete_row_other ns id rev ns' id' (x ∷ xs) other = ground (
  arith,
  latest_row-delete_row_other ns id rev ns' id' xs other,
  eq_iff x.ns ns,
  eq_iff x.id id,
  eq_iff x.ns ns',
  eq_iff x.id id',
  eq_iff ns ns',
  eq_iff id id',
)

-- the revisions of one object, in the table's order
unfoldable pub revs_of : String → String → List ObjectRow → List ℕ
revs_of ns id [] = []
revs_of ns id (x ∷ xs) = let rest = revs_of ns id xs in if is_at ns id x then x.rev ∷ rest else rest

pub revs_here :
    (ns id : String) (x : ObjectRow) (xs : List ObjectRow)
    → is_at ns id x ≡ true
    → revs_of ns id (x ∷ xs) ≡ x.rev ∷ revs_of ns id xs
unfolding revs_of
revs_here ns id x xs here = ground (arith, here)

pub revs_away :
    (ns id : String) (x : ObjectRow) (xs : List ObjectRow)
    → is_at ns id x ≡ false
    → revs_of ns id (x ∷ xs) ≡ revs_of ns id xs
unfolding revs_of
revs_away ns id x xs away = ground (arith, away)

abbrev pub Ascending : List ℕ → Type 0
Ascending [] = Unit
Ascending (r ∷ rs) = All (λ s. r < s) rs × Ascending rs

abbrev rev_of : Option ObjectRow → Option ℕ
rev_of none = none
rev_of (some row) = some row.rev

pub All-last : (P : ℕ → Type 0) (rs : List ℕ) {m : ℕ} → All P rs → get_last? rs ≡ some m → P m
All-last P [] h e = cc
All-last P (r ∷ []) {m} h e = let q : r ≡ m = ground arith in subst P q h.0
All-last P (r ∷ s ∷ rs) h e = All-last P (s ∷ rs) h.1 e

last_cons : (r : ℕ) (rs : List ℕ) → get_last? (r ∷ rs) ≡ some (or_else (get_last? rs) r)
last_cons r [] = refl
last_cons r (s ∷ []) = refl
last_cons r (s ∷ t ∷ rs) = ground (arith, last_cons s (t ∷ rs))

pub latest_row-last :
    (ns id : String) (xs : List ObjectRow)
    → Ascending (revs_of ns id xs)
    → rev_of (latest_row ns id xs) ≡ get_last? (revs_of ns id xs)
unfolding latest_row revs_of
latest_row-last ns id [] up = refl
latest_row-last ns id (x ∷ xs) up = elim (Bool-cases (is_at ns id x)) [
  | inl here ↦
      let up' : Ascending (x.rev ∷ revs_of ns id xs) =
        subst Ascending (revs_here ns id x xs here) up in
      let ih = latest_row-last ns id xs up'.1 in
      elim (Option-cases (latest_row ns id xs)) [
        | inl e ↦ ground (arith, last_cons x.rev (revs_of ns id xs))
        | inr (r, e) ↦
            let last : get_last? (revs_of ns id xs) ≡ some r.rev = ground arith in
            let lt : x.rev < r.rev = All-last (λ s. x.rev < s) (revs_of ns id xs) up'.0 last in
            ground (arith, last_cons x.rev (revs_of ns id xs))
      ]
  | inr away ↦
      let up' : Ascending (revs_of ns id xs) = subst Ascending (revs_away ns id x xs away) up in
      ground (arith, latest_row-last ns id xs up')
]

-- the table gains the next revision of an object, and its newest one is no candidate
All-take : (P : ℕ → Type 0) (n : ℕ) (rs : List ℕ) → All P rs → All P (take_revs n rs)
unfolding take_revs
All-take P zero rs h = tt
All-take P (suc n) [] h = tt
All-take P (suc n) (r ∷ rs) h = (h.0, All-take P n rs h.1)

pub All-candidates :
    (P : ℕ → Type 0) (keep : ℕ) (rs : List ℕ) → All P rs → All P (candidates keep rs)
unfolding candidates
All-candidates P keep rs h = All-take P (length rs - keep) rs h

empty_of_last : (rs : List ℕ) → get_last? rs ≡ none → rs ≡ []
empty_of_last [] e = refl
empty_of_last (r ∷ rs) e = ground (arith, last_cons r rs, e)

pub revs_of-none :
    (ns id : String) (xs : List ObjectRow)
    → Ascending (revs_of ns id xs)
    → latest_row ns id xs ≡ none
    → revs_of ns id xs ≡ []
revs_of-none ns id xs up e =
    empty_of_last (revs_of ns id xs) (sym (latest_row-last ns id xs up) ∙ ap rev_of e)

take_revs-below :
    (n : ℕ) (rs : List ℕ) {m : ℕ}
    → Ascending rs
    → get_last? rs ≡ some m
    → n < length rs
    → All (λ r. r < m) (take_revs n rs)
unfolding take_revs
take_revs-below zero rs up e lt = tt
take_revs-below (suc n) [] up e lt = tt
take_revs-below (suc n) (r ∷ []) up e lt = absurd (omega arith)
take_revs-below (suc n) (r ∷ s ∷ rs) {m} up e lt =
    (All-last (λ t. r < t) (s ∷ rs) up.0 e, take_revs-below n (s ∷ rs) up.1 e (omega arith))

last_of_empty : (rs : List ℕ) {m : ℕ} → get_last? rs ≡ some m → length rs ≢ 0
last_of_empty [] e = λ _. absurd cc
last_of_empty (r ∷ rs) e = λ h. absurd (omega (arith, h))

pub candidates-below :
    (ns id : String) (keep : ℕ) (xs : List ObjectRow) {m : ObjectRow}
    → Ascending (revs_of ns id xs)
    → latest_row ns id xs ≡ some m
    → 1 ≤ keep
    → All (λ r. r < m.rev) (candidates keep (revs_of ns id xs))
unfolding candidates
candidates-below ns id keep xs {m} up e some_kept =
    let last : get_last? (revs_of ns id xs) ≡ some m.rev =
      ground (arith, latest_row-last ns id xs up, e) in
    elim (Bool-cases (eqb (length (revs_of ns id xs)) 0)) [
      | inl empty ↦ absurd (last_of_empty (revs_of ns id xs) last (ground (arith, empty)))
      | inr more ↦
          take_revs-below (length (revs_of ns id xs) - keep) (revs_of ns id xs) up last
            (ground (arith, more))
    ]
