-- ===== src/Vault/Copy.antt =====
-- The swap harness, plugins/vivim-vault/src/roundtrip.ts, and `casCopyAll` of cas.ts. The path checks
-- of `roundtrip` are left out: the target is the vault that its directory opens as.
-- `parse_body` is `bodyText` of what JSON.parse makes of a blob's text.
pub mod Same
use vivim_omega.Common.Dict
use vivim_omega.Common.Dict.{Dict}
use vivim_omega.Common.{
  ℕ, suc, String, Bool, true, false, Option, none, some, List, [], ◌∷◌, ◌++◌, length, if◌then◌else◌,
  is_some,
}
use vivim_omega.Vault.Store.{
  ObjectRow, ColdRow, ChangelogRow, FtsRow, Vault, is_cid, cas_get, find_row, cold_rows, new_vault,
}
use vivim_omega.Vault.Verify.{Detail, verify, by_seq}

-- the files whose name is a cid are copied over those of the target
unfoldable pub cas_copy_all : Dict String → Dict String → ℕ × Dict String
unfolding is_cid Dict.put
cas_copy_all [] target = (0, target)
cas_copy_all ((cid, t) ∷ blobs) target = elim (is_cid cid) [
  | true ↦ let (n, copied) = cas_copy_all blobs (Dict.put cid t target) in (suc n, copied)
  | false ↦ cas_copy_all blobs target
]

-- the rows of the FTS index are derived anew; a missing blob has none
unfoldable pub rebuild_fts : (String → Option String) → Vault → List ObjectRow → List FtsRow
unfolding cas_get
rebuild_fts parse_body copy [] = []
rebuild_fts parse_body copy (row ∷ rows) =
    let rest = rebuild_fts parse_body copy rows in
    elim (cas_get row.cid copy) [
      | none ↦ rest
      | some t ↦ elim (parse_body t) [
        | none ↦ rest
        | some body ↦ record { ns = row.ns; id = row.id; rev = row.rev; body = body } ∷ rest
      ]
    ]

pub record RoundtripResult : Type 0 where
  pub ok : Bool
  pub entries : ℕ
  pub head_hash : String
  pub detail : Option Detail
  pub blobs_copied : ℕ

-- the copy that is written into an empty target
unfoldable pub copy_of : (String → Option String) → Vault → Vault
unfolding cas_copy_all rebuild_fts by_seq
copy_of parse_body v =
    let blobs : Vault = record new_vault { cas = (cas_copy_all v.cas []).1 } in
    record {
      objects = v.objects;
      cold_objects = v.cold_objects;
      changelog = by_seq v.changelog;
      fts_index = rebuild_fts parse_body blobs v.objects;
      cas = blobs.cas;
    }

unfoldable pub roundtrip :
    (String → String) → (String → Option String) → Vault → RoundtripResult × Vault
unfolding copy_of verify cas_copy_all
roundtrip hash parse_body v =
    let copy = copy_of parse_body v in
    let verdict = verify hash copy in
    (
      record {
        ok = verdict.ok;
        entries = verdict.entries;
        head_hash = verdict.head_hash;
        detail = verdict.detail;
        blobs_copied = (cas_copy_all v.cas []).0;
      },
      copy,
    )
