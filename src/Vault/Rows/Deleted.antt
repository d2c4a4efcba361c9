-- ===== src/Vault/Rows/Deleted.antt =====
-- Deleting a row from a table of plugins/vivim-vault/src/sql.ts.
use vivim_omega.Common.{
  ℕ, ◌<◌, String, true, ◌&&◌, none, some, List, [], ◌∷◌, ◌≡◌, refl, eqb, get_last?, All, arith,
  Bool-cases, Option-cases, inl, inr, ◌⊎◌, sym,
}
use mathlib.Core.Path.{subst}
use vivim_omega.Vault.Store.{ObjectRow, latest_row, is_at}
use vivim_omega.Vault.Compact.{delete_row}
use vivim_omega.Vault.Rows.{revs_of, revs_here, revs_away, Ascending, All-last, latest_row-last}

latest_row-delete_row-none :
    (ns id : String) (rev : ℕ) (xs : List ObjectRow)
    → latest_row ns id xs ≡ none
    → latest_row ns id (delete_row ns id rev xs) ≡ none
unfolding latest_row delete_row
latest_row-delete_row-none ns id rev [] e = refl
latest_row-delete_row-none ns id rev (x ∷ xs) e =
    ground (arith, latest_row-delete_row-none ns id rev xs)

-- deleting an older revision leaves the newest one in place
pub latest_row-delete_row :
    (ns id : String) (rev : ℕ) (xs : List ObjectRow) {m : ObjectRow}
    → Ascending (revs_of ns id xs)
    → latest_row ns id xs ≡ some m
    → rev < m.rev
    → latest_row ns id (delete_row ns id rev xs) ≡ some m
unfolding latest_row delete_row
latest_row-delete_row ns id rev [] up e older = cc
latest_row-delete_row ns id rev (x ∷ xs) {m} up e older = elim (Bool-cases (is_at ns id x)) [
  | inl here ↦
      let up' = subst Ascending (revs_here ns id x xs here) up in
      elim (Option-cases (latest_row ns id xs)) [
        | inl nothing ↦ ground (arith, latest_row-delete_row-none ns id rev xs nothing)
        | inr (r, rest) ↦
            let last : get_last? (revs_of ns id xs) ≡ some r.rev =
              ground (arith, latest_row-last ns id xs up'.1) in
            let lt : x.rev < r.rev = All-last (λ s. x.rev < s) (revs_of ns id xs) up'.0 last in
            let same : r ≡ m = ground arith in
            ground (arith, latest_row-delete_row ns id rev xs {m = r} up'.1 rest)
      ]
  | inr away ↦
      let up' = subst Ascending (revs_away ns id x xs away) up in
      ground (arith, latest_row-delete_row ns id rev xs {m = m} up')
]

-- the revisions without the row at the front
abbrev Shorter : String → String → ObjectRow → List ObjectRow → List ObjectRow → Type 0
Shorter ns id x xs ys =
    (revs_of ns id ys ≡ revs_of ns id xs)
    ⊎ (is_at ns id x ≡ true) × (revs_of ns id ys ≡ x.rev ∷ revs_of ns id xs)

delete_row-Shorter :
    (ns id ns' id' : String) (rev : ℕ) (x : ObjectRow) (xs : List ObjectRow)
    → Shorter ns id x (delete_row ns' id' rev xs) (delete_row ns' id' rev (x ∷ xs))
unfolding revs_of delete_row
delete_row-Shorter ns id ns' id' rev x xs = elim (Bool-cases (is_at ns' id' x && eqb x.rev rev)) [
  | inl gone ↦ inl (ground (arith, gone))
  | inr stays ↦ elim (Bool-cases (is_at ns id x)) [
    | inl here ↦ inr (here, ground (arith, stays, here))
    | inr away ↦ inl (ground (arith, stays, away))
  ]
]

pub All-tail :
    (P : ℕ → Type 0) (ns id : String) (x : ObjectRow) (xs : List ObjectRow)
    → All P (revs_of ns id (x ∷ xs))
    → All P (revs_of ns id xs)
All-tail P ns id x xs h = elim (Bool-cases (is_at ns id x)) [
  | inl here ↦ (subst (All P) (revs_here ns id x xs here) h).1
  | inr away ↦ subst (All P) (revs_away ns id x xs away) h
]

pub Ascending-tail :
    (ns id : String) (x : ObjectRow) (xs : List ObjectRow)
    → Ascending (revs_of ns id (x ∷ xs))
    → Ascending (revs_of ns id xs)
Ascending-tail ns id x xs h = elim (Bool-cases (is_at ns id x)) [
  | inl here ↦ (subst Ascending (revs_here ns id x xs here) h).1
  | inr away ↦ subst Ascending (revs_away ns id x xs away) h
]

All-delete_row :
    (P : ℕ → Type 0) (ns id ns' id' : String) (rev : ℕ) (xs : List ObjectRow)
    → All P (revs_of ns id xs)
    → All P (revs_of ns id (delete_row ns' id' rev xs))
unfolding delete_row
All-delete_row P ns id ns' id' rev [] h = h
All-delete_row P ns id ns' id' rev (x ∷ xs) h =
    let rest = All-delete_row P ns id ns' id' rev xs (All-tail P ns id x xs h) in
    elim (delete_row-Shorter ns id ns' id' rev x xs) [
      | inl e ↦ subst (All P) (sym e) rest
      | inr (here, e) ↦
          subst (All P) (sym e) ((subst (All P) (revs_here ns id x xs here) h).0, rest)
    ]

pub Ascending-delete_row :
    (ns id ns' id' : String) (rev : ℕ) (xs : List ObjectRow)
    → Ascending (revs_of ns id xs)
    → Ascending (revs_of ns id (delete_row ns' id' rev xs))
unfolding delete_row
Ascending-delete_row ns id ns' id' rev [] h = h
Ascending-delete_row ns id ns' id' rev (x ∷ xs) h =
    let rest = Ascending-delete_row ns id ns' id' rev xs (Ascending-tail ns id x xs h) in
    elim (delete_row-Shorter ns id ns' id' rev x xs) [
      | inl e ↦ subst Ascending (sym e) rest
      | inr (here, e) ↦
          let above = (subst Ascending (revs_here ns id x xs here) h).0 in
          subst Ascending (sym e) (All-delete_row (λ s. x.rev < s) ns id ns' id' rev xs above, rest)
    ]
