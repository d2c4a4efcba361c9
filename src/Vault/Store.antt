-- ===== src/Vault/Store.antt =====
-- The vault's tables and reads, plugins/vivim-vault/src/sql.ts and cas.ts. A SQL table is the list of
-- its rows, oldest insertion first; the blobs of the CAS are the texts of its files by cid. The meta
-- column is the envelope that its text parses to, and the data of a record are the text that
-- JSON.parse reads.
use vivim_omega.Law.ConsentId.{is_hex_text}
use vivim_omega.Common.StrSet
use vivim_omega.Common.StrSet.{StrSet}
use vivim_omega.Common.Dict
use vivim_omega.Common.Dict.{Dict}
use vivim_omega.Common.{
  ℕ, String, Bool, true, false, ◌&&◌, Option, none, some, List, [], ◌∷◌, ◌==◌, ltb, eqb,
  if◌then◌else◌, length,
}
use vivim_omega.Vault.Canon.{Json}

pub record Ref : Type 0 where
  pub ns : String
  pub id : String
  pub rev : ℕ

pub record MetaEnvelope : Type 0 where
  pub meta : Json
  pub refs : List Ref

-- a row of `objects`, and of `cold_objects` without its `moved_at`
pub record ObjectRow : Type 0 where
  pub ns : String
  pub id : String
  pub rev : ℕ
  pub cid : String
  pub meta : MetaEnvelope

pub record ColdRow : Type 0 where
  pub row : ObjectRow
  pub moved_at : ℕ

pub record ChangelogRow : Type 0 where
  pub seq : ℕ
  pub causation_id : String
  pub ns : String
  pub id : String
  pub rev : ℕ
  pub cid : String
  pub entry_hash : String
  pub prev_hash : String

pub record FtsRow : Type 0 where
  pub ns : String
  pub id : String
  pub rev : ℕ
  pub body : String

pub record Vault : Type 0 where
  pub objects : List ObjectRow
  pub cold_objects : List ColdRow
  pub changelog : List ChangelogRow
  pub fts_index : List FtsRow
  pub cas : Dict String

-- what the DDL creates
abbrev pub new_vault : Vault
new_vault = record { objects = []; cold_objects = []; changelog = []; fts_index = []; cas = [] }

-- CID_RE, the test of `casPath`
unfoldable pub is_cid : String → Bool
unfolding is_hex_text
is_cid s = is_hex_text 64 s

unfoldable pub cas_get : String → Vault → Option String
unfolding is_cid Dict.get
cas_get cid v = if is_cid cid then Dict.get cid v.cas else none

unfoldable pub cas_has : String → Vault → Bool
unfolding is_cid Dict.get
cas_has cid v = is_cid cid && Dict.has cid v.cas

abbrev pub is_at : String → String → ObjectRow → Bool
is_at ns id row = row.ns == ns && row.id == id

-- WHERE ns = ? AND id = ? AND rev = ?
unfoldable pub find_row : String → String → ℕ → List ObjectRow → Option ObjectRow
find_row ns id rev [] = none
find_row ns id rev (row ∷ rows) =
    let rest = find_row ns id rev rows in
    if is_at ns id row && eqb row.rev rev then some row else rest

-- WHERE ns = ? AND id = ? ORDER BY rev DESC LIMIT 1
unfoldable pub latest_row : String → String → List ObjectRow → Option ObjectRow
latest_row ns id [] = none
latest_row ns id (row ∷ rows) =
    let rest = latest_row ns id rows in
    if is_at ns id row
    then (elim rest [ none ↦ some row | some r ↦ if ltb row.rev r.rev then some r else some row ])
    else rest

-- SELECT ns, id, rev, cid, meta FROM cold_objects
unfoldable pub cold_rows : List ColdRow → List ObjectRow
cold_rows [] = []
cold_rows (k ∷ ks) = k.row ∷ cold_rows ks

pub record ObjectRecord : Type 0 where
  pub rev : ℕ
  pub cid : String
  pub data_ : String
  pub meta : Json
  pub refs : List Ref

-- the row that a read takes: hot first, then cold
unfoldable pub row_of : Vault → String → String → Option ℕ → Option ObjectRow
unfolding find_row latest_row cold_rows
row_of v ns id (some rev) = elim (find_row ns id rev v.objects) [
  | some row ↦ some row
  | none ↦ find_row ns id rev (cold_rows v.cold_objects)
]
row_of v ns id none = elim (latest_row ns id v.objects) [
  | some row ↦ some row
  | none ↦ latest_row ns id (cold_rows v.cold_objects)
]

-- the record of a row; `none` where the blob is missing
unfoldable pub record_of : Vault → ObjectRow → Option ObjectRecord
unfolding cas_get
record_of v row = elim (cas_get row.cid v) [
  | none ↦ none
  | some t ↦ some (record {
    rev = row.rev;
    cid = row.cid;
    data_ = t;
    meta = row.meta.meta;
    refs = row.meta.refs;
  })
]

-- `none` where the source throws: no such object, or a missing blob
unfoldable pub read_object : Vault → String → String → Option ℕ → Option ObjectRecord
unfolding row_of record_of
read_object v ns id rev = elim (row_of v ns id rev) [ none ↦ none | some row ↦ record_of v row ]

abbrev pub get_many_bound : ℕ
get_many_bound = 512

pub data ObjectGetRow : Type 0 where
  found : String → ℕ → String → String → Json → ObjectGetRow
  missing : String → ObjectGetRow

-- `new Set(ids)`
unfoldable pub set_of : StrSet → List String → StrSet
unfolding StrSet.add
set_of seen [] = seen
set_of seen (id ∷ ids) = set_of (StrSet.add id seen) ids

unfoldable pub get_rows : Vault → String → StrSet → List String → Option (List ObjectGetRow)
unfolding row_of record_of StrSet.add StrSet.has
get_rows v ns seen [] = some []
get_rows v ns seen (id ∷ ids) = elim (StrSet.has id seen) [
  | true ↦ get_rows v ns seen ids
  | false ↦ elim (get_rows v ns (StrSet.add id seen) ids) [
    | none ↦ none
    | some rest ↦ elim (row_of v ns id none) [
      | none ↦ some (missing id ∷ rest)
      | some row ↦ elim (record_of v row) [
        | none ↦ none
        | some r ↦ some (found id r.rev r.cid r.data_ r.meta ∷ rest)
      ]
    ]
  ]
]

-- `none` where the source throws: too many ids, or a missing blob
unfoldable pub read_objects : Vault → String → List String → Option (List ObjectGetRow)
unfolding set_of get_rows
read_objects v ns ids =
    if ltb get_many_bound (length (set_of [] ids)) then none else get_rows v ns [] ids
