-- ===== src/Vault/Verify.antt =====
-- The proof walk, plugins/vivim-vault/src/verify.ts. `hash` is the SHA-256 of node:crypto. A
-- `Detail` is the sentence that the source puts into `detail`.
pub mod Intact
pub mod Growth
use vivim_omega.Common.StrSet
use vivim_omega.Common.StrSet.{StrSet}
use vivim_omega.Common.{
  ℕ, suc, ◌+◌, String, Bool, true, false, not, ◌&&◌, ◌||◌, Option, none, some, List, [], ◌∷◌, ◌++◌,
  ◌==◌, leb, ltb, eqb, if◌then◌else◌, length, is_some,
}
use vivim_omega.Vault.Canon.{entry_hash, genesis_hash}
use vivim_omega.Vault.Store.{ObjectRow, ColdRow, ChangelogRow, Vault, cas_has, find_row, cold_rows}

pub data Detail : Type 0 where
  seq_gap : ℕ → ℕ → Detail
  prev_mismatch : ℕ → String → String → Detail
  hash_mismatch : ℕ → String → String → Detail
  no_stored_revision : ℕ → String → String → ℕ → Detail
  blob_missing : String → String → String → ℕ → ℕ → Detail
  blobs_missing : ℕ → Detail

pub record VerifyResult : Type 0 where
  pub ok : Bool
  pub head_hash : String
  pub entries : ℕ
  pub corrupt_at : Option ℕ
  pub detail : Option Detail

-- ORDER BY seq ASC
unfoldable pub insert_entry : ChangelogRow → List ChangelogRow → List ChangelogRow
insert_entry e [] = e ∷ []
insert_entry e (f ∷ es) =
    let rest = insert_entry e es in if leb e.seq f.seq then e ∷ f ∷ es else f ∷ rest

unfoldable pub by_seq : List ChangelogRow → List ChangelogRow
unfolding insert_entry
by_seq [] = []
by_seq (e ∷ es) = insert_entry e (by_seq es)

-- `head`, `corruptAt` and `detail`
pub record Walk : Type 0 where
  pub head : String
  pub corrupt : Option (ℕ × Detail)

module _ (hash : String → String) where
  -- the rows from the position `i` on, after the entry hash `prev`
  unfoldable pub walk : ℕ → String → List ChangelogRow → Walk
  unfolding entry_hash
  walk i prev [] = record { head = prev; corrupt = none }
  walk i prev (row ∷ rows) =
      let computed = entry_hash hash row.seq row.causation_id row.ns row.id row.rev row.cid prev in
      let rest = walk (suc i) computed rows in
      if not (eqb row.seq (i + 1))
      then record { head = prev; corrupt = some (row.seq, seq_gap row.seq (i + 1)) }
      else if not (row.prev_hash == prev)
      then record {
        head = prev;
        corrupt = some (row.seq, prev_mismatch row.seq row.prev_hash prev);
      }
      else if not (row.entry_hash == computed)
      then record {
        head = prev;
        corrupt = some (row.seq, hash_mismatch row.seq row.entry_hash computed);
      }
      else rest

abbrev pub is_stored : Vault → String → String → ℕ → Bool
is_stored v ns id rev =
    is_some (find_row ns id rev v.objects)
    || is_some (find_row ns id rev (cold_rows v.cold_objects))

-- the lowest entry without a stored revision, in rows ordered by seq
unfoldable pub first_dangling : Vault → List ChangelogRow → Option ChangelogRow
unfolding find_row cold_rows
first_dangling v [] = none
first_dangling v (e ∷ es) =
    let rest = first_dangling v es in if is_stored v e.ns e.id e.rev then rest else some e

-- SELECT DISTINCT cid FROM objects UNION SELECT DISTINCT cid FROM cold_objects
unfoldable pub distinct_cids : List ObjectRow → StrSet
unfolding StrSet.add
distinct_cids [] = []
distinct_cids (row ∷ rows) = StrSet.add row.cid (distinct_cids rows)

-- SELECT ns, id, rev FROM … WHERE cid = ? LIMIT 1
unfoldable pub carrier_of : String → List ObjectRow → Option ObjectRow
carrier_of cid [] = none
carrier_of cid (row ∷ rows) =
    let rest = carrier_of cid rows in if row.cid == cid then some row else rest

-- SELECT seq FROM changelog WHERE ns = ? AND id = ? AND rev = ? ORDER BY seq LIMIT 1
unfoldable pub link_of : String → String → ℕ → List ChangelogRow → Option ℕ
link_of ns id rev [] = none
link_of ns id rev (e ∷ es) =
    let rest = link_of ns id rev es in
    if e.ns == ns && e.id == id && eqb e.rev rev then some e.seq else rest

-- where the chain is to blame for a missing blob
unfoldable pub blame : Vault → String → Option (ℕ × Detail)
unfolding carrier_of cold_rows link_of by_seq
blame v cid = elim (carrier_of cid (v.objects ++ cold_rows v.cold_objects)) [
  | none ↦ none
  | some c ↦ elim (link_of c.ns c.id c.rev (by_seq v.changelog)) [
    | none ↦ none
    | some seq ↦ some (seq, blob_missing cid c.ns c.id c.rev seq)
  ]
]

-- under `if (corruptAt === undefined)`
abbrev pub blame_unless : Vault → Option (ℕ × Detail) → String → Option (ℕ × Detail)
unfolding blame
blame_unless v none cid = blame v cid
blame_unless v (some c) cid = some c

-- the loop over the cids: `missingCas`, and `corruptAt` with its `detail`
unfoldable pub probe_blobs : Vault → ℕ → Option (ℕ × Detail) → StrSet → ℕ × Option (ℕ × Detail)
unfolding cas_has
probe_blobs v missing corrupt [] = (missing, corrupt)
probe_blobs v missing corrupt (cid ∷ cids) = elim (cas_has cid v) [
  | true ↦ probe_blobs v missing corrupt cids
  | false ↦ probe_blobs v (missing + 1) (blame_unless v corrupt cid) cids
]

abbrev seq_of : Option (ℕ × Detail) → Option ℕ
seq_of none = none
seq_of (some c) = some c.0

abbrev detail_of : ℕ → Option (ℕ × Detail) → Option Detail
detail_of missing none = if ltb 0 missing then some (blobs_missing missing) else none
detail_of missing (some c) = some c.1

module _ (hash : String → String) where
  -- the walk, then the links where the walk found nothing
  unfoldable pub chain_corrupt : Vault → Option (ℕ × Detail)
  unfolding walk by_seq first_dangling
  chain_corrupt v =
      let rows = by_seq v.changelog in
      elim (walk hash 0 genesis_hash rows).corrupt [
        | some c ↦ some c
        | none ↦ elim (first_dangling v rows) [
          | none ↦ none
          | some e ↦ some (e.seq, no_stored_revision e.seq e.ns e.id e.rev)
        ]
      ]

  unfoldable pub verify : Vault → VerifyResult
  unfolding walk by_seq chain_corrupt distinct_cids cold_rows probe_blobs
  verify v =
      let cids = distinct_cids (v.objects ++ cold_rows v.cold_objects) in
      let (missing, corrupt) = probe_blobs v 0 (chain_corrupt v) cids in
      record {
        ok = not (is_some corrupt) && eqb missing 0;
        head_hash = (walk hash 0 genesis_hash (by_seq v.changelog)).head;
        entries = length v.changelog;
        corrupt_at = seq_of corrupt;
        detail = detail_of missing corrupt;
      }
