-- ===== src/Vault/Query/Newest.antt =====
-- What the query of plugins/vivim-vault/src/sql.ts answers, against the versions of the objects.
use mathlib.Core.Path.{subst}
use mathlib.Core.List.{append_assoc}
use vivim_omega.Vault.Compact.{text_lt}
use vivim_omega.Common.{
  ℕ, ◌<◌, ◌≤◌, String, true, ◌&&◌, some, List, [], ◌∷◌, ◌++◌, ◌==◌, ◌≡◌, refl, sym, ◌∙◌, length,
  All, arith, eq_iff, eq_refl, Bool-cases, Option-cases, inl, inr,
}
use vivim_omega.Vault.Store.{ObjectRow, Vault, is_at, is_cid, find_row, new_vault}
use vivim_omega.Vault.Rows.{revs_of, revs_here, revs_away, Ascending}
use vivim_omega.Vault.Spec.{Command, run, Spec, Version, version?, spec_run, empty_spec}
use vivim_omega.Vault.Refined.{IsRefined}
use vivim_omega.Vault.Refinement.{IsUsing, run-IsRefined, empty-IsRefined}
use vivim_omega.Vault.Query.{
  QueryFilter, QueryRow, passes, is_newest, insert_by_id, select_rows, query_objects,
}

module _ (row : ObjectRow) (ys : List ObjectRow) where
  All_member :
      (P : ℕ → Type 0) (xs : List ObjectRow)
      → All P (revs_of row.ns row.id (xs ++ row ∷ ys))
      → P row.rev
  All_member P [] h =
      (subst (All P)
        (revs_here row.ns row.id row ys (ground (arith, eq_refl row.ns, eq_refl row.id))) h).0
  All_member P (x ∷ xs) h = elim (Bool-cases (is_at row.ns row.id x)) [
    | inl here ↦
        All_member P xs (subst (All P) (revs_here row.ns row.id x (xs ++ row ∷ ys) here) h).1
    | inr away ↦ All_member P xs (subst (All P) (revs_away row.ns row.id x (xs ++ row ∷ ys) away) h)
  ]

  -- a row of a table without duplicates is what a lookup of its key finds
  find_member :
      (xs : List ObjectRow)
      → Ascending (revs_of row.ns row.id (xs ++ row ∷ ys))
      → find_row row.ns row.id row.rev (xs ++ row ∷ ys) ≡ some row
  unfolding find_row
  find_member [] up = ground (arith, eq_refl row.ns, eq_refl row.id)
  find_member (x ∷ xs) up = elim (Bool-cases (is_at row.ns row.id x)) [
    | inl here ↦
        let up' = subst Ascending (revs_here row.ns row.id x (xs ++ row ∷ ys) here) up in
        let lt = All_member (λ n. x.rev < n) xs up'.0 in
        ground (arith, here, lt, find_member xs up'.1)
    | inr away ↦
        let up' = subst Ascending (revs_away row.ns row.id x (xs ++ row ∷ ys) away) up in
        ground (arith, away, find_member xs up')
  ]

-- the newest version of its object, and one that the filter lets through
pub record IsNewest (hash : String → String) (s : Spec) (ns : String) (filter : QueryFilter)
    (q : QueryRow) : Type 0 where
  pub newest : q.rev ≡ length (s ns q.id)
  pub version : (x : Version) × (version? q.rev (s ns q.id) ≡ some x) × (q.cid ≡ hash x.body)
  pub passed : (row : ObjectRow) × (row.id ≡ q.id) × (row.rev ≡ q.rev) × (passes filter row ≡ true)
  pub above : (m : ℕ) → filter.min_rev ≡ some m → m ≤ q.rev

passes-min_rev :
    (filter : QueryFilter) (row : ObjectRow) (m : ℕ)
    → passes filter row ≡ true
    → filter.min_rev ≡ some m
    → m ≤ row.rev
unfolding passes
passes-min_rev filter row m h e = ground (arith, h, e)

All-insert_by_id :
    (P : QueryRow → Type 0) (r : QueryRow) (rows : List QueryRow)
    → P r
    → All P rows
    → All P (insert_by_id r rows)
unfolding insert_by_id
All-insert_by_id P r [] h hs = (h, tt)
All-insert_by_id P r (q ∷ rows) h hs = elim (Bool-cases (text_lt q.id r.id)) [
  | inl later ↦ rw later (hs.0, All-insert_by_id P r rows h hs.1)
  | inr first ↦ rw first (h, hs)
]

module _ (hash : String → String) (IsUsed : String → Type 0) (v : Vault) (s : Spec)
    (r : IsRefined hash IsUsed v s) (ns : String) (filter : QueryFilter) where
  selected :
      (xs ys : List ObjectRow) (row : ObjectRow)
      → v.objects ≡ xs ++ row ∷ ys
      → (row.ns == ns && (is_newest v.objects row && passes filter row)) ≡ true
      → IsNewest hash s ns filter (record { id = row.id; rev = row.rev; cid = row.cid })
  unfolding is_newest
  selected xs ys row e h =
      let up =
        subst (λ hot. Ascending (revs_of row.ns row.id hot)) e (r.wf.ascending row.ns row.id) in
      let found : find_row row.ns row.id row.rev v.objects ≡ some row =
        rw e (find_member row ys xs up) in
      let same : row.ns ≡ ns = ground (arith, h, eq_iff row.ns ns) in
      let stored = r.stored row.ns row.id row.rev in
      let latest = r.latest row.ns row.id in
      let through : passes filter row ≡ true = ground (arith, h) in
      elim (Option-cases (version? row.rev (s row.ns row.id))) [
        | inl gone ↦ absurd (ground (arith, found, stored, gone))
        | inr (x, there) ↦
            let cid : row.cid ≡ hash x.body = ground (arith, found, stored, there) in
            let n = length (s row.ns row.id) in
            elim (Option-cases (version? n (s row.ns row.id))) [
              | inl none_last ↦ absurd (ground (arith, h, latest, none_last))
              | inr (y, last) ↦
                  let newest : row.rev ≡ n = ground (arith, h, latest, last) in
                  subst
                    (λ a.
                      IsNewest hash s a filter
                        (record { id = row.id; rev = row.rev; cid = row.cid }))
                    same
                    (record {
                      newest = newest;
                      version = (x, there, cid);
                      passed = (row, refl, refl, through);
                      above = λ m bound. passes-min_rev filter row m through bound;
                    })
            ]
      ]

  All-select_rows :
      (xs ys : List ObjectRow)
      → v.objects ≡ xs ++ ys
      → All (IsNewest hash s ns filter) (select_rows v.objects ns filter ys)
  unfolding select_rows
  All-select_rows xs [] e = tt
  All-select_rows xs (row ∷ ys) e =
      let rest = All-select_rows (xs ++ row ∷ []) ys (e ∙ sym (append_assoc xs (row ∷ []) ys)) in
      elim (Bool-cases (row.ns == ns && (is_newest v.objects row && passes filter row))) [
        | inl taken ↦ rw taken (All-insert_by_id _ _ _ (selected xs ys row e taken) rest)
        | inr left ↦ rw left rest
      ]

module _ (hash : String → String) (IsUsed : String → Type 0)
    (hex : (t : String) → is_cid (hash t) ≡ true)
    (no_collision : (t u : String) → IsUsed t → IsUsed u → hash t ≡ hash u → t ≡ u) where
  -- After any sequence of appends and compactions, every row that a query answers is the newest
  -- version of its object, with the digest of that version's data, and passes the filter; its
  -- revision is not below the filter's least one. The digest is a text of 64 hexadecimal digits,
  -- without a collision among the texts that are in use.
  pub query_objects-IsNewest :
      (cs : List Command)
      → All (IsUsing hash IsUsed hex no_collision) cs
      → (ns : String) (filter : QueryFilter)
      → All
          (IsNewest hash (spec_run cs empty_spec) ns filter)
          (query_objects (run hash cs new_vault) ns filter)
  unfolding query_objects
  query_objects-IsNewest cs using ns filter =
      let r =
        run-IsRefined hash IsUsed hex no_collision cs new_vault empty_spec
          (empty-IsRefined hash IsUsed hex no_collision) using in
      All-select_rows hash IsUsed (run hash cs new_vault) (spec_run cs empty_spec) r ns filter []
        (run hash cs new_vault).objects refl
