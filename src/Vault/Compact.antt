-- ===== src/Vault/Compact.antt =====
-- Compaction, plugins/vivim-vault/src/compaction.ts, and `liveRefs` and `ftsDeleteMany` of sql.ts.
-- A `Map` is a Dict. The ids and revisions of a table are numbered once each, so that the staging
-- table of `ftsDeleteMany` is the list of its targets.
mod Groups
pub mod Moved
pub mod Kept
pub mod Protected
pub mod Holds
use Prim.Native.Nat.{Ordering}
use Prim.Native.String.{compare}
use vivim_omega.Common.Dict
use vivim_omega.Common.Dict.{Dict}
use vivim_omega.Common.StrSet
use vivim_omega.Common.StrSet.{StrSet}
use vivim_omega.Common.{
  ℕ, zero, suc, ◌+◌, ◌-◌, String, Bool, true, false, not, ◌&&◌, ◌||◌, Option, none, some, List, [],
  ◌∷◌, ◌++◌, ◌==◌, ltb, leb, eqb, if◌then◌else◌, length, or_else, any,
}
use vivim_omega.Vault.Canon.{decimal, ◌⦙◌}
use vivim_omega.Vault.Store.{Ref, ObjectRow, ColdRow, FtsRow, Vault, is_at, find_row, cold_rows}

-- the key of a provenance edge
unfoldable pub ref_key : String → String → ℕ → String
unfolding ◌⦙◌ decimal
ref_key ns id rev = ns ⦙ id ⦙ decimal rev

unfoldable pub add_refs : List Ref → StrSet → StrSet
unfolding ref_key StrSet.add
add_refs [] out = out
add_refs (r ∷ rs) out = add_refs rs (StrSet.add (ref_key r.ns r.id r.rev) out)

unfoldable pub live_refs : StrSet → List ObjectRow → StrSet
unfolding add_refs
live_refs out [] = out
live_refs out (row ∷ rows) = live_refs (add_refs row.meta.refs out) rows

abbrev pub text_lt : String → String → Bool
text_lt s t = elim (compare s t) [ Ordering.lt ↦ true | _ ↦ false ]

-- ORDER BY id ASC, rev ASC
unfoldable pub precedes : ObjectRow → ObjectRow → Bool
precedes r s = text_lt r.id s.id || (r.id == s.id && leb r.rev s.rev)

unfoldable pub insert_row : ObjectRow → List ObjectRow → List ObjectRow
unfolding precedes
insert_row r [] = r ∷ []
insert_row r (s ∷ rows) =
    let rest = insert_row r rows in if precedes r s then r ∷ s ∷ rows else s ∷ rest

-- SELECT … FROM objects WHERE ns = ? ORDER BY id ASC, rev ASC
unfoldable pub rows_of : String → List ObjectRow → List ObjectRow
unfolding insert_row
rows_of ns [] = []
rows_of ns (r ∷ rows) = let rest = rows_of ns rows in if r.ns == ns then insert_row r rest else rest

-- the loop that fills `byId`
unfoldable pub group_by_id : Dict (List ℕ) → List ObjectRow → Dict (List ℕ)
unfolding Dict.get Dict.put
group_by_id by_id [] = by_id
group_by_id by_id (r ∷ rows) =
    let list = or_else (Dict.get r.id by_id) [] in
    group_by_id (Dict.put r.id (list ++ r.rev ∷ []) by_id) rows

-- `revs.slice(0, n)`
unfoldable pub take_revs : ℕ → List ℕ → List ℕ
take_revs zero revs = []
take_revs (suc n) [] = []
take_revs (suc n) (r ∷ revs) = r ∷ take_revs n revs

-- the superseded revisions; as many as `keep`, or all, stay
unfoldable pub candidates : ℕ → List ℕ → List ℕ
unfolding take_revs
candidates keep revs = take_revs (length revs - keep) revs

-- DELETE FROM objects WHERE ns = ? AND id = ? AND rev = ?
unfoldable pub delete_row : String → String → ℕ → List ObjectRow → List ObjectRow
delete_row ns id rev [] = []
delete_row ns id rev (row ∷ rows) =
    let rest = delete_row ns id rev rows in
    if is_at ns id row && eqb row.rev rev then rest else row ∷ rest

-- what the transaction has done so far
pub record Pass : Type 0 where
  pub objects : List ObjectRow
  pub cold_objects : List ColdRow
  pub moved : ℕ
  pub kept : ℕ
  pub protected : ℕ
  pub moved_targets : List (String × ℕ)

-- INSERT INTO cold_objects … SELECT, and the DELETE; `none` where the primary key refuses the row
unfoldable pub move_row : String → String → ℕ → ℕ → Pass → Option Pass
unfolding find_row cold_rows delete_row
move_row ns id rev now p = elim (find_row ns id rev p.objects) [
  | none ↦ some p
  | some row ↦ elim (find_row ns id rev (cold_rows p.cold_objects)) [
    | some _ ↦ none
    | none ↦ some (record p {
      objects = delete_row ns id rev p.objects;
      cold_objects = p.cold_objects ++ record { row = row; moved_at = now } ∷ [];
    })
  ]
]

module _ (protected_refs : StrSet) (now : ℕ) (ns : String) where
  -- the inner loop
  unfoldable pub move_candidates : String → List ℕ → Pass → Option Pass
  unfolding move_row StrSet.has ref_key
  move_candidates id [] p = some p
  move_candidates id (rev ∷ revs) p = elim (StrSet.has (ref_key ns id rev) protected_refs) [
    | true ↦ move_candidates id revs (record p { kept = p.kept + 1; protected = p.protected + 1 })
    | false ↦ elim (move_row ns id rev now p) [
      | none ↦ none
      | some q ↦
          move_candidates id revs
            (record q { moved = q.moved + 1; moved_targets = q.moved_targets ++ (id, rev) ∷ [] })
    ]
  ]

  -- the loop over `byId`; the count of `hot` is the length of `revs.slice(-keep)`
  unfoldable pub move_ids : ℕ → Dict (List ℕ) → Pass → Option Pass
  unfolding move_candidates candidates
  move_ids keep [] p = some p
  move_ids keep ((id, revs) ∷ by_id) p =
      let hot = length revs - length (candidates keep revs) in
      elim (move_candidates id (candidates keep revs) (record p { kept = p.kept + hot })) [
        | none ↦ none
        | some q ↦ move_ids keep by_id q
      ]

abbrev is_target : FtsRow → String × ℕ → Bool
is_target f t = t.0 == f.id && eqb t.1 f.rev

unfoldable pub fts_delete_many : String → List (String × ℕ) → List FtsRow → List FtsRow
fts_delete_many ns targets [] = []
fts_delete_many ns targets (f ∷ fs) =
    let rest = fts_delete_many ns targets fs in
    if f.ns == ns && any (is_target f) targets then rest else f ∷ rest

pub record CompactResult : Type 0 where
  pub moved : ℕ
  pub kept : ℕ
  pub protected : ℕ

-- `none` where the source throws, and the transaction is rolled back
unfoldable pub compact : String → ℕ → ℕ → Vault → Option (CompactResult × Vault)
unfolding live_refs rows_of group_by_id move_ids fts_delete_many
compact ns keep now v =
    let start : Pass = record {
      objects = v.objects;
      cold_objects = v.cold_objects;
      moved = 0;
      kept = 0;
      protected = 0;
      moved_targets = [];
    } in
    let by_id = group_by_id [] (rows_of ns v.objects) in
    let pass = move_ids (live_refs [] v.objects) now ns keep by_id start in
    if ns == "" || ltb keep 1 then none else elim pass [
      | none ↦ none
      | some p ↦ some (
        record { moved = p.moved; kept = p.kept; protected = p.protected },
        record v {
          objects = p.objects;
          cold_objects = p.cold_objects;
          fts_index = fts_delete_many ns p.moved_targets v.fts_index;
        },
      )
    ]
