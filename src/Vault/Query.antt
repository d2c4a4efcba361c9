-- ===== src/Vault/Query.antt =====
-- The query of the newest hot revisions of a namespace, `queryObjects` of
-- plugins/vivim-vault/src/sql.ts. SQLite's LIKE does not tell the case of ASCII letters apart; the
-- escaped pattern is a prefix and then anything.
pub mod Newest
use Prim.Native.Char.{Char, code}
use vivim_omega.Common.{
  ℕ, ◌+◌, String, Bool, true, false, ◌&&◌, Option, none, some, List, [], ◌∷◌, ◌==◌, ltb, leb, eqb,
  if◌then◌else◌,
}
use vivim_omega.Vault.Store.{ObjectRow, Vault, latest_row}
use vivim_omega.Vault.Compact.{text_lt}

-- the code of a letter in lower case, for ASCII
unfoldable pub fold_case : Char → ℕ
fold_case c = if leb b'A' (code c) && leb (code c) b'Z' then code c + 32 else code c

-- id LIKE 'prefix%'
unfoldable pub like_prefix : String → String → Bool
unfolding fold_case
like_prefix String.[] id = true
like_prefix (String.◌∷◌ c p) String.[] = false
like_prefix (String.◌∷◌ c p) (String.◌∷◌ d id) =
    let rest = like_prefix p id in eqb (fold_case c) (fold_case d) && rest

pub record QueryFilter : Type 0 where
  pub id_prefix : Option String
  pub min_rev : Option ℕ

unfoldable pub passes : QueryFilter → ObjectRow → Bool
unfolding like_prefix
passes filter row =
    (elim filter.id_prefix [ none ↦ true | some p ↦ like_prefix p row.id ])
    && (elim filter.min_rev [ none ↦ true | some m ↦ leb m row.rev ])

-- the join with MAX(rev) of the id
unfoldable pub is_newest : List ObjectRow → ObjectRow → Bool
unfolding latest_row
is_newest hot row = elim (latest_row row.ns row.id hot) [
  | none ↦ false
  | some newest ↦ eqb row.rev newest.rev
]

pub record QueryRow : Type 0 where
  pub id : String
  pub rev : ℕ
  pub cid : String

-- ORDER BY id ASC
unfoldable pub insert_by_id : QueryRow → List QueryRow → List QueryRow
insert_by_id r [] = r ∷ []
insert_by_id r (s ∷ rows) =
    let rest = insert_by_id r rows in if text_lt s.id r.id then s ∷ rest else r ∷ s ∷ rows

unfoldable pub select_rows : List ObjectRow → String → QueryFilter → List ObjectRow → List QueryRow
unfolding is_newest passes insert_by_id
select_rows hot ns filter [] = []
select_rows hot ns filter (row ∷ rows) =
    let rest = select_rows hot ns filter rows in
    if row.ns == ns && (is_newest hot row && passes filter row)
    then insert_by_id (record { id = row.id; rev = row.rev; cid = row.cid }) rest
    else rest

unfoldable pub query_objects : Vault → String → QueryFilter → List QueryRow
unfolding select_rows
query_objects v ns filter = select_rows v.objects ns filter v.objects
