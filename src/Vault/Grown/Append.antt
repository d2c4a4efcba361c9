-- ===== src/Vault/Grown/Append.antt =====
-- What `appendObject` of plugins/vivim-vault/src/changelog.ts makes of the vault.
use mathlib.Core.Path.{subst}
use vivim_omega.Common.Dict
use vivim_omega.Common.{
  ℕ, ◌+◌, String, true, ◌&&◌, none, some, [], ◌∷◌, ◌++◌, ◌==◌, ◌≡◌, refl, sym, ◌∙◌, ap, length,
  arith, eq_iff, eq_refl, Bool-cases, Option-cases, inl, inr, ◌≢◌, if◌then◌else◌, List,
}
use vivim_omega.Vault.Canon.{canonical_json, body_text, Json}
use vivim_omega.Vault.Json.{json_value}
use vivim_omega.Vault.Append.{
  envelope_of, or_null, max_rev, AppendInput, cas_put, append_rows, append_object, max_seq,
  next_entry, AppendResult,
}
use vivim_omega.Vault.Store.{Ref, ObjectRow, Vault, is_cid, find_row}
use vivim_omega.Vault.Spec.{append, Spec, Version, version?, version_of, spec_step}
use vivim_omega.Vault.Refined.{IsRefined}
use vivim_omega.Vault.Grown.{
  version?-append, version?_past, body_of_canonical, new_row, grown, fresh, stored_grown,
  latest_grown, IsWf-grown, revs_grown, blobs_grown,
}

-- the column parses to the meta, as JSON gives it back, and to the refs
envelope_of_lem :
    (meta : Json) (refs : List Ref)
    → envelope_of meta refs ≡ record { meta = json_value meta; refs = refs }
unfolding envelope_of or_null json_value
envelope_of_lem Json.undefined refs = refl
envelope_of_lem Json.null refs = refl
envelope_of_lem (Json.boolean b) refs = refl
envelope_of_lem (Json.number n) refs = refl
envelope_of_lem (Json.text s) refs = refl
envelope_of_lem (Json.array xs) refs = refl
envelope_of_lem (Json.object fs) refs = refl

-- the blob is there afterwards, and the others are kept
unfoldable pub BlobPut :
    (String → String) → (String → Type 0) → Vault → String → Dict.Dict String → Type 0
BlobPut hash IsUsed v t cas =
    (Dict.get (hash t) cas ≡ some t)
    × ((cid u : String) → Dict.get cid v.cas ≡ some u → Dict.get cid cas ≡ some u)
    × ((cid u : String) → Dict.get cid cas ≡ some u → (cid ≡ hash u) × IsUsed u)

module _ (hash : String → String) (IsUsed : String → Type 0)
    (hex : (t : String) → is_cid (hash t) ≡ true)
    (no_collision : (t u : String) → IsUsed t → IsUsed u → hash t ≡ hash u → t ≡ u) where
  cas_put_blob :
      (v : Vault) (s : Spec) (j : Json) (t : String)
      → IsRefined hash IsUsed v s
      → canonical_json j ≡ some t
      → IsUsed t
      → (cas : Dict.Dict String) × (cas_put hash j v ≡ some (hash t, record v { cas = cas }))
        × BlobPut hash IsUsed v t cas
  unfolding cas_put BlobPut
  cas_put_blob v s j t r canonical used = elim (Option-cases (Dict.get (hash t) v.cas)) [
    | inr (u, e) ↦
        let (same_hash, used_u) = r.used (hash t) e in
        let same : t ≡ u = no_collision t u used used_u same_hash in
        (
          v.cas,
          ground (arith, canonical, hex t, e),
          (e ∙ ap some (sym same), (λ cid u e. e), (λ cid u e. r.used cid e)),
        )
    | inl e ↦ (
      Dict.put (hash t) t v.cas,
      ground (arith, canonical, hex t, e),
      (
        ground (arith, Dict.get-put (hash t) (hash t) t v.cas, eq_refl (hash t)),
        (λ cid u f. ground (arith, e, f, Dict.get-put (hash t) cid t v.cas, eq_iff (hash t) cid)),
        (λ cid u f. elim (Bool-cases (hash t == cid)) [
          | inl same ↦
              let q : t ≡ u = ground (arith, f, same, Dict.get-put (hash t) cid t v.cas) in
              (
                subst (λ w. cid ≡ hash w) q (sym ((eq_iff (hash t) cid).0 same)),
                subst IsUsed q used,
              )
          | inr other ↦ r.used cid (ground (arith, f, other, Dict.get-put (hash t) cid t v.cas))
        ]),
      ),
    )
  ]

  module _ (v : Vault) (s : Spec) (input : AppendInput) (t : String) (r : IsRefined hash IsUsed v s)
      (canonical : canonical_json input.data_ ≡ some t) (used : IsUsed t) where
    abbrev pub added : Version
    added = version_of input t

    abbrev pub row : ObjectRow
    row = new_row hash IsUsed v s r input.ns input.id added

    -- the vault with the row of revision `rev`
    unfoldable pub appended : Dict.Dict String → String → ℕ → Vault
    unfolding next_entry
    appended cas body rev = record v {
      cas = cas;
      objects =
          v.objects
          ++ record { ns = input.ns; id = input.id; rev = rev; cid = hash t; meta = added.envelope }
            ∷ [];
      fts_index =
          v.fts_index ++ record { ns = input.ns; id = input.id; rev = rev; body = body } ∷ [];
      changelog =
          v.changelog
          ++ next_entry hash v.changelog input.causation_id input.ns input.id rev (hash t) ∷ [];
    }

    abbrev pub result : ℕ → AppendResult
    result rev = record { rev = rev; cid = hash t; seq = max_seq v.changelog + 1 }

    abbrev RowsAt : Dict.Dict String → String → ℕ → Type 0
    RowsAt cas body n =
        find_row input.ns input.id (n + 1) v.objects ≡ none
        → append_rows hash input (hash t) (record v { cas = cas })
          ≡ some (result (n + 1), appended cas body (n + 1))

    append-RowsAt :
        (cas : Dict.Dict String) (body : String)
        → body_text input.data_ ≡ some body
        → RowsAt cas body (max_rev input.ns input.id v.changelog)
    unfolding append_rows next_entry appended
    append-RowsAt cas body e free = ground (arith, e, free, envelope_of_lem input.meta input.refs)

    append_rows_done :
        (cas : Dict.Dict String) (body : String)
        → body_text input.data_ ≡ some body
        → append_rows hash input (hash t) (record v { cas = cas })
          ≡ some (result row.rev, appended cas body row.rev)
    append_rows_done cas body e =
        subst (RowsAt cas body) (r.revs input.ns input.id) (append-RowsAt cas body e)
          (ground (arith, fresh hash IsUsed v s r input.ns input.id added))

    appended-IsRefined :
        (cas : Dict.Dict String) (body : String)
        → BlobPut hash IsUsed v t cas
        → IsRefined hash IsUsed
            (appended cas body row.rev)
            (grown hash IsUsed v s r input.ns input.id added)
    unfolding BlobPut appended next_entry
    appended-IsRefined cas body (there, kept, known) = record {
      wf = IsWf-grown hash IsUsed v s r input.ns input.id added;
      stored = stored_grown hash IsUsed v s r input.ns input.id added;
      latest = latest_grown hash IsUsed v s r input.ns input.id added;
      revs =
          revs_grown hash IsUsed v s r input.ns input.id added
            (next_entry hash v.changelog input.causation_id input.ns input.id row.rev (hash t)) refl
            refl refl;
      blobs = blobs_grown hash IsUsed v s r input.ns input.id added cas kept there;
      used = λ cid {t = u} e. known cid u e;
    }

    pub append_object_done :
        (cas : Dict.Dict String) × (body : String) × (append_object hash input v
          ≡ (some (result row.rev), appended cas body row.rev))
        × BlobPut hash IsUsed v t cas
    unfolding append_object
    append_object_done =
        let (cas, put, blob) = cas_put_blob v s input.data_ t r canonical used in
        let (body, e) = body_of_canonical input.data_ canonical in
        (cas, body, ground (arith, put, append_rows_done cas body e), blob)

    -- Appending data that have a canonical text to a vault that stands for a list of versions under
    -- each id does not throw. It answers the next revision of the object, and the digest of the
    -- text; the vault it leaves stands for the same versions with the new one at the end.
    pub append_object-IsRefined :
        (w : Vault) × (append_object hash input v ≡ (
          some (record {
            rev = length (s input.ns input.id) + 1;
            cid = hash t;
            seq = max_seq v.changelog + 1;
          }),
          w,
        ))
        × IsRefined hash IsUsed w (spec_step (append input) s)
    unfolding spec_step
    append_object-IsRefined =
        let (cas, body, done, blob) = append_object_done in
        (
          appended cas body row.rev,
          done,
          rw (canonical, spec_step) (appended-IsRefined cas body blob),
        )

    pub spec_at :
        (ns' id' : String)
        → spec_step (append input) s ns' id'
          ≡ (if input.ns == ns' && input.id == id' then s ns' id' ++ added ∷ [] else s ns' id')
    unfolding spec_step
    spec_at ns' id' = rw (canonical, spec_step) refl

    -- an entry's revision stays, and the new one is there
    pub version_kept :
        (ns' id' : String) (rev : ℕ)
        → version? rev (s ns' id') ≢ none
        → version? rev (spec_step (append input) s ns' id') ≢ none
    version_kept ns' id' rev there = λ gone.
        let e = ap (version? rev) (sym (spec_at ns' id')) ∙ gone in
        there (ground (arith, e, version?-append rev (s ns' id') added))

    pub version_added : version? row.rev (spec_step (append input) s input.ns input.id) ≢ none
    version_added = λ gone.
        let xs = s input.ns input.id in
        let e = ap (version? row.rev) (sym (spec_at input.ns input.id)) ∙ gone in
        ground (
          arith,
          e,
          eq_refl input.ns,
          eq_refl input.id,
          version?-append row.rev xs added,
          version?_past xs row.rev (omega arith),
        )
