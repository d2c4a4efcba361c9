-- ===== src/Vault/Append.antt =====
-- Appending a revision, plugins/vivim-vault/src/changelog.ts and `casPut` of cas.ts. `hash` is the
-- SHA-256 of node:crypto. What a throw leaves behind is the second component.
use vivim_omega.Common.Dict
use vivim_omega.Common.{
  ℕ, ◌+◌, String, Option, none, some, List, [], ◌∷◌, ◌++◌, ◌==◌, ◌&&◌, ltb, if◌then◌else◌, length,
  max,
}
use vivim_omega.Vault.Canon.{Json, canonical_json, entry_hash, body_text, genesis_hash}
use vivim_omega.Vault.Json.{json_value}
use vivim_omega.Vault.Store.{
  Ref, MetaEnvelope, ObjectRow, ChangelogRow, FtsRow, Vault, is_cid, find_row,
}

-- SELECT … FROM changelog ORDER BY seq DESC LIMIT 1
unfoldable pub newest_entry : List ChangelogRow → Option ChangelogRow
newest_entry [] = none
newest_entry (e ∷ es) = elim (newest_entry es) [
  | none ↦ some e
  | some f ↦ if ltb e.seq f.seq then some f else some e
]

unfoldable pub chain_head : List ChangelogRow → String
unfolding newest_entry
chain_head es = elim (newest_entry es) [ none ↦ genesis_hash | some e ↦ e.entry_hash ]

abbrev pub changelog_count : Vault → ℕ
changelog_count v = length v.changelog

-- SELECT COALESCE(MAX(seq), 0) FROM changelog
unfoldable pub max_seq : List ChangelogRow → ℕ
max_seq [] = 0
max_seq (e ∷ es) = max e.seq (max_seq es)

-- SELECT COALESCE(MAX(rev), 0) FROM changelog WHERE ns = ? AND id = ?
unfoldable pub max_rev : String → String → List ChangelogRow → ℕ
max_rev ns id [] = 0
max_rev ns id (e ∷ es) =
    let rest = max_rev ns id es in if e.ns == ns && e.id == id then max e.rev rest else rest

-- `meta ?? null`
unfoldable pub or_null : Json → Json
or_null Json.undefined = Json.null
or_null meta = meta

-- what the text of the column parses to
unfoldable pub envelope_of : Json → List Ref → MetaEnvelope
unfolding or_null
envelope_of meta refs = record { meta = json_value (or_null meta); refs = refs }

pub record AppendInput : Type 0 where
  pub ns : String
  pub id : String
  pub data_ : Json
  pub meta : Json
  pub refs : List Ref
  pub causation_id : String

pub record AppendResult : Type 0 where
  pub rev : ℕ
  pub cid : String
  pub seq : ℕ

module _ (hash : String → String) where
  -- the row that is inserted
  unfoldable pub next_entry :
      List ChangelogRow → String → String → String → ℕ → String → ChangelogRow
  unfolding chain_head max_seq entry_hash
  next_entry es causation_id ns id rev cid =
      let prev_hash = chain_head es in
      let seq = max_seq es + 1 in
      record {
        seq = seq;
        causation_id = causation_id;
        ns = ns;
        id = id;
        rev = rev;
        cid = cid;
        entry_hash = entry_hash hash seq causation_id ns id rev cid prev_hash;
        prev_hash = prev_hash;
      }

  -- a blob that is there is left as it is; `none` where the source throws
  unfoldable pub cas_put : Json → Vault → Option (String × Vault)
  unfolding canonical_json is_cid Dict.get Dict.put
  cas_put data_ v = elim (canonical_json data_) [
    | none ↦ none
    | some t ↦
        let cid = hash t in
        if is_cid cid
        then (if Dict.has cid v.cas
            then some (cid, v)
            else some (cid, record v { cas = Dict.put cid t v.cas }))
        else none
  ]

  -- the transaction; `none` where the primary key of `objects` refuses the row, or the text of the
  -- body throws
  unfoldable pub append_rows : AppendInput → String → Vault → Option (AppendResult × Vault)
  unfolding max_rev find_row envelope_of body_text next_entry
  append_rows input cid v =
      let rev = max_rev input.ns input.id v.changelog + 1 in
      elim (find_row input.ns input.id rev v.objects) [
        | some row ↦ none
        | none ↦ elim (body_text input.data_) [
          | none ↦ none
          | some body ↦
              let row : ObjectRow = record {
                ns = input.ns;
                id = input.id;
                rev = rev;
                cid = cid;
                meta = envelope_of input.meta input.refs;
              } in
              let fts : FtsRow = record { ns = input.ns; id = input.id; rev = rev; body = body } in
              let e = next_entry v.changelog input.causation_id input.ns input.id rev cid in
              some (
                record { rev = rev; cid = cid; seq = e.seq },
                record v {
                  objects = v.objects ++ row ∷ [];
                  fts_index = v.fts_index ++ fts ∷ [];
                  changelog = v.changelog ++ e ∷ [];
                },
              )
        ]
      ]

  unfoldable pub append_object : AppendInput → Vault → Option AppendResult × Vault
  unfolding cas_put append_rows
  append_object input v = elim (cas_put input.data_ v) [
    | none ↦ (none, v)
    | some p ↦ elim (append_rows input p.0 p.1) [ none ↦ (none, p.1) | some q ↦ (some q.0, q.1) ]
  ]
