-- ===== src/Vault/Rows/Appended.antt =====
-- Adding a row at the end of a table of plugins/vivim-vault/src/sql.ts.
use vivim_omega.Common.{
  ℕ, ◌<◌, String, true, false, some, List, [], ◌∷◌, ◌++◌, ◌≡◌, refl, get_last?, All, arith,
  Bool-cases, Option-cases, inl, inr, sym, All-append,
}
use mathlib.Core.Path.{subst}
use vivim_omega.Vault.Store.{ObjectRow, latest_row, is_at}
use vivim_omega.Vault.Rows.{revs_of, revs_here, Ascending, latest_row-last}
use vivim_omega.Vault.Rows.Deleted.{All-tail}

-- a row that is added at the end
pub revs_of-append_here :
    (ns id : String) (r : ObjectRow) (xs : List ObjectRow)
    → is_at ns id r ≡ true
    → revs_of ns id (xs ++ r ∷ []) ≡ revs_of ns id xs ++ r.rev ∷ []
unfolding revs_of
revs_of-append_here ns id r [] here = ground (arith, here)
revs_of-append_here ns id r (x ∷ xs) here = ground (arith, revs_of-append_here ns id r xs here)

pub revs_of-append_away :
    (ns id : String) (r : ObjectRow) (xs : List ObjectRow)
    → is_at ns id r ≡ false
    → revs_of ns id (xs ++ r ∷ []) ≡ revs_of ns id xs
unfolding revs_of
revs_of-append_away ns id r [] away = ground (arith, away)
revs_of-append_away ns id r (x ∷ xs) away = ground (arith, revs_of-append_away ns id r xs away)

pub latest_row-append_away :
    (ns id : String) (r : ObjectRow) (xs : List ObjectRow)
    → is_at ns id r ≡ false
    → latest_row ns id (xs ++ r ∷ []) ≡ latest_row ns id xs
unfolding latest_row
latest_row-append_away ns id r [] away = ground (arith, away)
latest_row-append_away ns id r (x ∷ xs) away =
    ground (arith, latest_row-append_away ns id r xs away)

pub latest_row-append_here :
    (ns id : String) (r : ObjectRow) (xs : List ObjectRow)
    → is_at ns id r ≡ true
    → All (λ s. s < r.rev) (revs_of ns id xs)
    → latest_row ns id (xs ++ r ∷ []) ≡ some r
unfolding latest_row
latest_row-append_here ns id r [] here below = ground (arith, here)
latest_row-append_here ns id r (x ∷ xs) here below =
    let ih = latest_row-append_here ns id r xs here (All-tail (λ s. s < r.rev) ns id x xs below) in
    elim (Bool-cases (is_at ns id x)) [
      | inl at ↦
          let lt = (subst (All (λ s. s < r.rev)) (revs_here ns id x xs at) below).0 in
          ground (arith, ih, lt)
      | inr away ↦ ground (arith, ih, away)
    ]

Ascending-snoc :
    (n : ℕ) (rs : List ℕ) → Ascending rs → All (λ s. s < n) rs → Ascending (rs ++ n ∷ [])
Ascending-snoc n [] up below = (tt, tt)
Ascending-snoc n (r ∷ rs) up below =
    (All-append (λ s. r < s) rs (n ∷ []) up.0 (below.0, tt), Ascending-snoc n rs up.1 below.1)

-- everything that is in the table is older than `n` when its newest revision is
below_last :
    (n : ℕ) (rs : List ℕ)
    → Ascending rs
    → ((m : ℕ) → get_last? rs ≡ some m → m < n)
    → All (λ s. s < n) rs
below_last n [] up h = tt
below_last n (r ∷ []) up h = (h r refl, tt)
below_last n (r ∷ s ∷ rs) up h =
    let rest = below_last n (s ∷ rs) up.1 h in (ground (arith, up.0.0, rest.0), rest)

pub below_latest :
    (ns id : String) (n : ℕ) (xs : List ObjectRow)
    → Ascending (revs_of ns id xs)
    → ((row : ObjectRow) → latest_row ns id xs ≡ some row → row.rev < n)
    → All (λ s. s < n) (revs_of ns id xs)
below_latest ns id n xs up h = below_last n (revs_of ns id xs) up (λ m e.
    let last = latest_row-last ns id xs up in
    elim (Option-cases (latest_row ns id xs)) [
      | inl nothing ↦ absurd (ground (arith, last, nothing, e))
      | inr (row, here) ↦
          let q : row.rev ≡ m = ground (arith, last, here, e) in subst (λ k. k < n) q (h row here)
    ])

pub Ascending-append :
    (ns id : String) (r : ObjectRow) (xs : List ObjectRow)
    → Ascending (revs_of ns id xs)
    → (is_at ns id r ≡ true → All (λ s. s < r.rev) (revs_of ns id xs))
    → Ascending (revs_of ns id (xs ++ r ∷ []))
Ascending-append ns id r xs up below = elim (Bool-cases (is_at ns id r)) [
  | inl here ↦
      subst Ascending (sym (revs_of-append_here ns id r xs here))
        (Ascending-snoc r.rev (revs_of ns id xs) up (below here))
  | inr away ↦ subst Ascending (sym (revs_of-append_away ns id r xs away)) up
]
