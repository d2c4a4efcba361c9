-- ===== src/Vault/Compact/Groups.antt =====
-- What compaction.ts reads before it moves anything: the rows of a namespace in the order of the
-- query, grouped into `byId`. Each id is met once, with its revisions in ascending order.
use mathlib.Core.Path.{subst}
use mathlib.Core.List.{append-nil, append_assoc}
use vivim_omega.Common.Dict
use vivim_omega.Common.Dict.{Dict}
use vivim_omega.Common.{
  ℕ, ◌<◌, String, true, false, List, [], ◌∷◌, ◌++◌, ◌==◌, ◌≡◌, refl, All, arith, eq_iff, Bool-cases,
  inl, inr, sym, ◌∙◌, or_else, ap,
}
use vivim_omega.Vault.Store.{ObjectRow, is_at}
use vivim_omega.Vault.Compact.{insert_row, precedes, rows_of, group_by_id}
use vivim_omega.Vault.Rows.{revs_of, revs_here, revs_away, Ascending}
use vivim_omega.Vault.Rows.Deleted.{Ascending-tail}

insert_row_away :
    (ns id : String) (r : ObjectRow) (xs : List ObjectRow)
    → is_at ns id r ≡ false
    → revs_of ns id (insert_row r xs) ≡ revs_of ns id xs
unfolding revs_of insert_row
insert_row_away ns id r [] away = ground (arith, away)
insert_row_away ns id r (x ∷ xs) away = elim (Bool-cases (precedes r x)) [
  | inl e ↦ ground (arith, e, away)
  | inr e ↦ ground (arith, e, insert_row_away ns id r xs away)
]

precedes_newer :
    (ns id : String) (r x : ObjectRow)
    → is_at ns id r ≡ true
    → is_at ns id x ≡ true
    → r.rev < x.rev
    → precedes r x ≡ true
unfolding precedes
precedes_newer ns id r x here at lt =
    ground (arith, eq_iff r.id id, eq_iff x.id id, eq_iff r.id x.id)

insert_row_here :
    (ns id : String) (r : ObjectRow) (xs : List ObjectRow)
    → is_at ns id r ≡ true
    → All (λ s. r.rev < s) (revs_of ns id xs)
    → revs_of ns id (insert_row r xs) ≡ r.rev ∷ revs_of ns id xs
unfolding insert_row
insert_row_here ns id r [] here above = revs_here ns id r [] here
insert_row_here ns id r (x ∷ xs) here above = elim (Bool-cases (precedes r x)) [
  | inl e ↦ rw e (revs_here ns id r (x ∷ xs) here)
  | inr e ↦ elim (Bool-cases (is_at ns id x)) [
    | inl at ↦
        let lt = (subst (All (λ s. r.rev < s)) (revs_here ns id x xs at) above).0 in
        absurd (ground (arith, precedes_newer ns id r x here at lt, e))
    | inr away ↦
        let above' = subst (All (λ s. r.rev < s)) (revs_away ns id x xs away) above in
        rw e (
          revs_away ns id x (insert_row r xs) away
          ∙ insert_row_here ns id r xs here above'
          ∙ ap (λ t. r.rev ∷ t) (sym (revs_away ns id x xs away)))
  ]
]

-- the query keeps the revisions of each id
revs_of-rows_of :
    (ns id : String) (xs : List ObjectRow)
    → Ascending (revs_of ns id xs)
    → revs_of ns id (rows_of ns xs) ≡ revs_of ns id xs
unfolding rows_of
revs_of-rows_of ns id [] up = refl
revs_of-rows_of ns id (x ∷ xs) up =
    let ih = revs_of-rows_of ns id xs (Ascending-tail ns id x xs up) in
    elim (Bool-cases (is_at ns id x)) [
      | inl here ↦
          let above = (subst Ascending (revs_here ns id x xs here) up).0 in
          let above' = subst (All (λ s. x.rev < s)) (sym ih) above in
          let in_ns : (x.ns == ns) ≡ true = ground (arith, here) in
          rw in_ns (
            insert_row_here ns id x (rows_of ns xs) here above'
            ∙ ap (λ t. x.rev ∷ t) ih
            ∙ sym (revs_here ns id x xs here))
      | inr away ↦ elim (Bool-cases (x.ns == ns)) [
        | inl in_ns ↦
            rw in_ns
              (insert_row_away ns id x (rows_of ns xs) away ∙ ih ∙ sym (revs_away ns id x xs away))
        | inr out ↦ rw out (ih ∙ sym (revs_away ns id x xs away))
      ]
    ]

All-insert_row :
    (ns : String) (r : ObjectRow) (xs : List ObjectRow)
    → (r.ns == ns) ≡ true
    → All (λ x. (x.ns == ns) ≡ true) xs
    → All (λ x. (x.ns == ns) ≡ true) (insert_row r xs)
unfolding insert_row
All-insert_row ns r [] h hs = (h, tt)
All-insert_row ns r (x ∷ xs) h hs = elim (Bool-cases (precedes r x)) [
  | inl e ↦ rw e (h, hs)
  | inr e ↦ rw e (hs.0, All-insert_row ns r xs h hs.1)
]

All-rows_of : (ns : String) (xs : List ObjectRow) → All (λ x. (x.ns == ns) ≡ true) (rows_of ns xs)
unfolding rows_of
All-rows_of ns [] = tt
All-rows_of ns (x ∷ xs) = elim (Bool-cases (x.ns == ns)) [
  | inl e ↦ rw e (All-insert_row ns x (rows_of ns xs) e (All-rows_of ns xs))
  | inr e ↦ rw e (All-rows_of ns xs)
]

abbrev revs_in : String → Dict (List ℕ) → List ℕ
unfolding Dict.get
revs_in id d = or_else (Dict.get id d) []

group_revs :
    (ns id : String) (by_id : Dict (List ℕ)) (xs : List ObjectRow)
    → All (λ x. (x.ns == ns) ≡ true) xs
    → revs_in id (group_by_id by_id xs) ≡ revs_in id by_id ++ revs_of ns id xs
unfolding group_by_id revs_of
group_revs ns id by_id [] h = sym (append-nil (revs_in id by_id))
group_revs ns id by_id (x ∷ xs) h =
    let list = or_else (Dict.get x.id by_id) [] in
    let by_id' = Dict.put x.id (list ++ x.rev ∷ []) by_id in
    let ih = group_revs ns id by_id' xs h.1 in
    let put = Dict.get-put x.id id (list ++ x.rev ∷ []) by_id in
    elim (Bool-cases (x.id == id)) [
      | inl same ↦
          let here : is_at ns id x ≡ true = ground (arith, h.0, same) in
          let e : revs_in id by_id' ≡ revs_in id by_id ++ x.rev ∷ [] =
            ground (arith, put, same, eq_iff x.id id) in
          ih
          ∙ ap (λ t. t ++ revs_of ns id xs) e
          ∙ append_assoc (revs_in id by_id) (x.rev ∷ []) (revs_of ns id xs)
          ∙ ap (λ t. revs_in id by_id ++ t) (sym (revs_here ns id x xs here))
      | inr other ↦
          let away : is_at ns id x ≡ false = ground (arith, h.0, other) in
          let e : revs_in id by_id' ≡ revs_in id by_id = ground (arith, put, other) in
          ih
          ∙ ap (λ t. t ++ revs_of ns id xs) e
          ∙ ap (λ t. revs_in id by_id ++ t) (sym (revs_away ns id x xs away))
    ]

group_by_id-IsDistinct :
    (by_id : Dict (List ℕ)) (xs : List ObjectRow)
    → Dict.IsDistinct by_id
    → Dict.IsDistinct (group_by_id by_id xs)
unfolding group_by_id
group_by_id-IsDistinct by_id [] d = d
group_by_id-IsDistinct by_id (x ∷ xs) d =
    let revs = or_else (Dict.get x.id by_id) [] ++ x.rev ∷ [] in
    group_by_id-IsDistinct (Dict.put x.id revs by_id) xs (Dict.put-IsDistinct x.id revs by_id d)

-- `byId` gives each id the revisions that the table holds of it
pub All-group_by_id {κ} :
    (P : String × List ℕ → Type κ) (ns : String) (xs : List ObjectRow)
    → ((id : String) → Ascending (revs_of ns id xs))
    → ((id : String) → P (id, revs_of ns id xs))
    → All P (group_by_id [] (rows_of ns xs))
unfolding Dict.get
All-group_by_id P ns xs up h =
    Dict.All-distinct P by_id (group_by_id-IsDistinct [] (rows_of ns xs) tt) (λ id revs e.
      let q : revs ≡ revs_of ns id xs =
        ap (λ o. or_else o []) (sym e)
        ∙ group_revs ns id [] (rows_of ns xs) (All-rows_of ns xs)
        ∙ revs_of-rows_of ns id xs (up id) in
      subst (λ t. P (id, t)) (sym q) (h id))
  where
    by_id : Dict (List ℕ)
    by_id = group_by_id [] (rows_of ns xs)
