-- ===== src/Vault/Compact/Moved.antt =====
-- What moving a row to the cold table, as compaction.ts does, makes of the two tables.

use vivim_omega.Common.{
  ℕ, ◌<◌, String, false, ◌&&◌, Option, none, some, List, [], ◌∷◌, ◌++◌, ◌==◌, ◌≡◌, refl, arith,
  eq_iff, Bool-cases, inl, inr, sym, ◌∙◌, ap,
}
use vivim_omega.Vault.Store.{ObjectRow, ColdRow, find_row, latest_row, cold_rows}
use vivim_omega.Vault.Compact.{Pass, delete_row}
use vivim_omega.Vault.Rows.{
  first_of, same_key, revs_of, Ascending, find_row-append, find_row-delete_row,
  find_row-delete_row_other, latest_row-delete_row_other,
}
use vivim_omega.Vault.Rows.Deleted.{latest_row-delete_row, Ascending-delete_row}

-- the row of a revision, hot or cold
abbrev pub stored_row : List ObjectRow → List ColdRow → String → String → ℕ → Option ObjectRow
stored_row hot cold ns id rev =
    first_of (find_row ns id rev hot) (find_row ns id rev (cold_rows cold))

-- the tables hold a revision once: hot or cold, and the hot ones of an object in ascending order
pub record IsWf (hot : List ObjectRow) (cold : List ColdRow) : Type 0 where
  pub apart :
      (ns id : String) (rev : ℕ) {row : ObjectRow}
      → find_row ns id rev hot ≡ some row
      → find_row ns id rev (cold_rows cold) ≡ none
  pub ascending : (ns id : String) → Ascending (revs_of ns id hot)

-- two states of the tables that hold the same revisions, with the same newest hot ones
pub record Kept (hot : List ObjectRow) (cold : List ColdRow) (hot' : List ObjectRow)
    (cold' : List ColdRow) : Type 0 where
  pub stored :
      (ns id : String) (rev : ℕ) → stored_row hot' cold' ns id rev ≡ stored_row hot cold ns id rev
  pub latest : (ns id : String) → latest_row ns id hot' ≡ latest_row ns id hot

abbrev pub KeptBy : Pass → Pass → Type 0
KeptBy p q = Kept p.objects p.cold_objects q.objects q.cold_objects

pub Kept_trans : (p q r : Pass) → KeptBy p q → KeptBy q r → KeptBy p r
Kept_trans p q r k l = record {
  stored = λ ns id rev. l.stored ns id rev ∙ k.stored ns id rev;
  latest = λ ns id. l.latest ns id ∙ k.latest ns id;
}

abbrev pub IsWfPass : Pass → Type 0
IsWfPass p = IsWf p.objects p.cold_objects

-- a revision older than the newest hot one of its object
abbrev pub Superseded : List ObjectRow → String → String → ℕ → Type 0
Superseded hot ns id rev = (m : ObjectRow) × (latest_row ns id hot ≡ some m) × (rev < m.rev)

pub Superseded-kept :
    (p q : Pass) (ns id : String) (rev : ℕ)
    → KeptBy p q
    → Superseded p.objects ns id rev
    → Superseded q.objects ns id rev
Superseded-kept p q ns id rev k (m, e, lt) = (m, k.latest ns id ∙ e, lt)

-- a row that is found has the key
find_row_self :
    (ns id : String) (rev : ℕ) (xs : List ObjectRow) (row : ObjectRow)
    → find_row ns id rev xs ≡ some row
    → find_row ns id rev (row ∷ []) ≡ some row
unfolding find_row
find_row_self ns id rev [] row e = cc
find_row_self ns id rev (x ∷ xs) row e = ground (arith, find_row_self ns id rev xs row, e)

find_row_other :
    (ns id : String) (rev : ℕ) (ns' id' : String) (rev' : ℕ) (row : ObjectRow)
    → find_row ns id rev (row ∷ []) ≡ some row
    → same_key ns id rev ns' id' rev' ≡ false
    → find_row ns' id' rev' (row ∷ []) ≡ none
unfolding find_row
find_row_other ns id rev ns' id' rev' row e other = ground (
  arith,
  e,
  other,
  eq_iff row.ns ns,
  eq_iff row.id id,
  eq_iff row.ns ns',
  eq_iff row.id id',
  eq_iff ns ns',
  eq_iff id id',
)

cold_rows-append :
    (ks : List ColdRow) (k : ColdRow) → cold_rows (ks ++ k ∷ []) ≡ cold_rows ks ++ k.row ∷ []
unfolding cold_rows
cold_rows-append [] k = refl
cold_rows-append (j ∷ ks) k = ap (λ t. j.row ∷ t) (cold_rows-append ks k)

-- what moving one row makes of the tables
module _ (ns id : String) (rev : ℕ) (hot : List ObjectRow) (cold : List ColdRow) (row : ObjectRow)
    (at : ℕ) (wf : IsWf hot cold) (here : find_row ns id rev hot ≡ some row) where
  abbrev pub hot' : List ObjectRow
  hot' = delete_row ns id rev hot

  abbrev pub cold' : List ColdRow
  cold' = cold ++ record { row = row; moved_at = at } ∷ []

  cold_after :
      (ns' id' : String) (rev' : ℕ)
      → find_row ns' id' rev' (cold_rows cold')
        ≡ first_of (find_row ns' id' rev' (cold_rows cold)) (find_row ns' id' rev' (row ∷ []))
  cold_after ns' id' rev' =
      ap (find_row ns' id' rev') (cold_rows-append cold (record { row = row; moved_at = at }))
      ∙ find_row-append ns' id' rev' (cold_rows cold) (row ∷ [])

  pub stored_after :
      (ns' id' : String) (rev' : ℕ)
      → stored_row hot' cold' ns' id' rev' ≡ stored_row hot cold ns' id' rev'
  stored_after ns' id' rev' = elim (Bool-cases (same_key ns id rev ns' id' rev')) [
    | inl same ↦ ground (
      arith,
      same,
      here,
      wf.apart ns id rev here,
      cold_after ns' id' rev',
      find_row-delete_row ns id rev hot,
      find_row_self ns id rev hot row here,
      eq_iff ns ns',
      eq_iff id id',
    )
    | inr other ↦ ground (
      arith,
      cold_after ns' id' rev',
      find_row-delete_row_other ns id rev ns' id' rev' hot other,
      find_row_other ns id rev ns' id' rev' row (find_row_self ns id rev hot row here) other,
    )
  ]

  pub latest_after :
      Superseded hot ns id rev
      → (ns' id' : String) → latest_row ns' id' hot' ≡ latest_row ns' id' hot
  latest_after (m, e, lt) ns' id' = elim (Bool-cases (ns == ns' && id == id')) [
    | inl same ↦ ground (
      arith,
      same,
      e,
      latest_row-delete_row ns id rev hot (wf.ascending ns id) e lt,
      eq_iff ns ns',
      eq_iff id id',
    )
    | inr other ↦ latest_row-delete_row_other ns id rev ns' id' hot other
  ]

  pub IsWf-after : IsWf hot' cold'
  IsWf-after = record {
    apart = λ ns' id' rev' {row = r} found. elim (Bool-cases (same_key ns id rev ns' id' rev')) [
      | inl same ↦ absurd (
          ground
            (arith, same, found, find_row-delete_row ns id rev hot, eq_iff ns ns', eq_iff id id'))
      | inr other ↦
          let before : find_row ns' id' rev' hot ≡ some r =
            sym (find_row-delete_row_other ns id rev ns' id' rev' hot other) ∙ found in
          ground (
            arith,
            cold_after ns' id' rev',
            wf.apart ns' id' rev' before,
            find_row_other ns id rev ns' id' rev' row (find_row_self ns id rev hot row here) other,
          )
    ];
    ascending = λ ns' id'. Ascending-delete_row ns' id' ns id rev hot (wf.ascending ns' id');
  }
