-- ===== src/Vault/Sound.antt =====
-- The writes of plugins/vivim-vault/src keep the vault intact, as its `verify` reads it.
use mathlib.Core.Path.{subst}
use vivim_omega.Common.Dict
use vivim_omega.Common.{
  ℕ, ◌+◌, String, true, none, some, List, [], ◌∷◌, ◌≡◌, ◌≢◌, sym, ◌∙◌, ap, length, All, All-append,
  All-map, arith, Option-cases, inl, inr,
}
use vivim_omega.Vault.Canon.{canonical_json, genesis_hash}
use vivim_omega.Vault.Store.{
  ObjectRow, ColdRow, ChangelogRow, Vault, is_cid, cas_has, cold_rows, new_vault,
}
use vivim_omega.Vault.Append.{AppendInput, next_entry, chain_head, append_object, cas_put}
use vivim_omega.Vault.Compact.{compact, CompactResult}
use vivim_omega.Vault.Compact.Holds.{AllRows, compact_holds}
use vivim_omega.Vault.Verify.{verify, by_seq, walk, is_stored}
use vivim_omega.Vault.Verify.Intact.{IsChain, IsIntact, verify_ok}
use vivim_omega.Vault.Verify.Growth.{head_of_chain, IsChain-next_entry, by_seq_chain}
use vivim_omega.Vault.Spec.{
  Command, append, compaction, step, run, Spec, version?, spec_step, spec_run, empty_spec,
}
use vivim_omega.Vault.Refined.{IsRefined}
use vivim_omega.Vault.Grown.Append.{
  append_object_done, BlobPut, appended, row, version_kept, version_added,
}
use vivim_omega.Vault.Refinement.{IsUsing, step-IsRefined, empty-IsRefined}

pub record IsSound (hash : String → String) (v : Vault) (s : Spec) : Type 0 where
  pub chain : IsChain hash 0 genesis_hash v.changelog
  pub linked : All (λ e. version? e.rev (s e.ns e.id) ≢ none) v.changelog
  pub present : AllRows (λ r. cas_has r.cid v ≡ true) v.objects v.cold_objects

compact_untouched :
    (ns : String) (keep now : ℕ) (v : Vault) (done : CompactResult × Vault)
    → compact ns keep now v ≡ some done
    → (done.1.changelog ≡ v.changelog) × (done.1.cas ≡ v.cas)
unfolding compact
compact_untouched ns keep now v done e = (ground (arith, e), ground (arith, e))

cas_has_kept :
    (v w : Vault) (cid : String)
    → ((cid u : String) → Dict.get cid v.cas ≡ some u → Dict.get cid w.cas ≡ some u)
    → cas_has cid v ≡ true
    → cas_has cid w ≡ true
unfolding cas_has
cas_has_kept v w cid kept h = elim (Option-cases (Dict.get cid v.cas)) [
  | inl nothing ↦ absurd (ground (arith, nothing, h))
  | inr (u, e) ↦ ground (arith, e, h, kept cid u e)
]

module _ (hash : String → String) (IsUsed : String → Type 0)
    (hex : (t : String) → is_cid (hash t) ≡ true)
    (no_collision : (t u : String) → IsUsed t → IsUsed u → hash t ≡ hash u → t ≡ u) where
  appended-IsSound :
      (v : Vault) (s : Spec) (input : AppendInput) (t : String)
      → (r : IsRefined hash IsUsed v s) → (canonical : canonical_json input.data_ ≡ some t)
      → (used : IsUsed t) → IsSound hash v s
      → (cas : Dict.Dict String) (body : String) → BlobPut hash IsUsed v t cas
      → IsSound hash
          (appended hash IsUsed hex no_collision v s input t r canonical used cas body
            (row hash IsUsed hex no_collision v s input t r canonical used).rev)
          (spec_step (append input) s)
  unfolding appended BlobPut cas_has next_entry
  appended-IsSound v s input t r canonical used sound cas body (there, kept, known) =
      let n = length (s input.ns input.id) + 1 in
      let e = next_entry hash v.changelog input.causation_id input.ns input.id n (hash t) in
      let s' = spec_step (append input) s in
      let w =
        appended hash IsUsed hex no_collision v s input t r canonical used cas body
          (row hash IsUsed hex no_collision v s input t r canonical used).rev in
      let new : ObjectRow = row hash IsUsed hex no_collision v s input t r canonical used in
      record {
        chain =
            IsChain-next_entry hash v.changelog input.causation_id input.ns input.id n (hash t)
              sound.chain;
        linked =
            All-append (λ d. version? d.rev (s' d.ns d.id) ≢ none) v.changelog (e ∷ [])
              (All-map
                (λ d.
                  version_kept hash IsUsed hex no_collision v s input t r canonical used d.ns d.id
                    d.rev)
                v.changelog sound.linked)
              (version_added hash IsUsed hex no_collision v s input t r canonical used, tt);
        present = (
          All-append (λ x. cas_has x.cid w ≡ true) v.objects (new ∷ [])
              (All-map (λ x. cas_has_kept v w x.cid kept) v.objects sound.present.0)
              (ground (arith, there, hex t), tt),
          All-map (λ k. cas_has_kept v w k.row.cid kept) v.cold_objects sound.present.1,
        );
      }

  append-IsSound :
      (input : AppendInput) (v : Vault) (s : Spec)
      → IsRefined hash IsUsed v s
      → IsUsing hash IsUsed hex no_collision (append input)
      → IsSound hash v s
      → IsSound hash (step hash (append input) v) (spec_step (append input) s)
  unfolding step spec_step append_object cas_put
  append-IsSound input v s r using sound = elim (Option-cases (canonical_json input.data_)) [
    | inl throws ↦
        let same : step hash (append input) v ≡ v = ground (arith, throws) in
        rw (throws, spec_step) (subst (λ w. IsSound hash w s) (sym same) sound)
    | inr (t, e) ↦
        let (cas, body, done, blob) =
          append_object_done hash IsUsed hex no_collision v s input t r e (using t e) in
        subst (λ w. IsSound hash w (spec_step (append input) s)) (sym (ap (λ p. p.1) done))
          (appended-IsSound v s input t r e (using t e) sound cas body blob)
  ]

  compact-IsSound :
      (ns : String) (keep now : ℕ) (v : Vault) (s : Spec)
      → IsSound hash v s
      → IsSound hash (step hash (compaction ns keep now) v) s
  unfolding step
  compact-IsSound ns keep now v s sound = elim (Option-cases (compact ns keep now v)) [
    | inl throws ↦
        let same : step hash (compaction ns keep now) v ≡ v = ground (arith, throws) in
        subst (λ w. IsSound hash w s) (sym same) sound
    | inr (done, e) ↦
        let at : step hash (compaction ns keep now) v ≡ done.1 = ground (arith, e) in
        let (changelog, cas) = compact_untouched ns keep now v done e in
        let P : ObjectRow → Type 0 = λ x. cas_has x.cid v ≡ true in
        let held = compact_holds P ns keep now v done e sound.present in
        let kept : (cid u : String)
            → Dict.get cid v.cas ≡ some u
            → Dict.get cid done.1.cas ≡ some u =
          λ cid u f. rw cas f in
        subst (λ w. IsSound hash w s) (sym at)
          (record {
            chain = rw changelog sound.chain;
            linked = rw changelog sound.linked;
            present = (
              All-map (λ x. cas_has_kept v done.1 x.cid kept) done.1.objects held.0,
              All-map (λ k. cas_has_kept v done.1 k.row.cid kept) done.1.cold_objects held.1,
            );
          })
  ]

  run-IsSound :
      (cs : List Command) (v : Vault) (s : Spec)
      → IsRefined hash IsUsed v s
      → IsSound hash v s
      → All (IsUsing hash IsUsed hex no_collision) cs
      → IsRefined hash IsUsed (run hash cs v) (spec_run cs s)
        × IsSound hash (run hash cs v) (spec_run cs s)
  unfolding run spec_run
  run-IsSound [] v s r sound using = (r, sound)
  run-IsSound (append input ∷ cs) v s r sound using =
      run-IsSound cs (step hash (append input) v) (spec_step (append input) s)
        (step-IsRefined hash IsUsed hex no_collision (append input) v s r using.0)
        (append-IsSound input v s r using.0 sound) using.1
  run-IsSound (compaction ns keep now ∷ cs) v s r sound using =
      run-IsSound cs (step hash (compaction ns keep now) v) (spec_step (compaction ns keep now) s)
        (step-IsRefined hash IsUsed hex no_collision (compaction ns keep now) v s r using.0)
        (compact-IsSound ns keep now v s sound) using.1

  stored_of_version :
      (v : Vault) (s : Spec) (e : ChangelogRow)
      → IsRefined hash IsUsed v s
      → version? e.rev (s e.ns e.id) ≢ none
      → is_stored v e.ns e.id e.rev ≡ true
  stored_of_version v s e r there = elim (Option-cases (version? e.rev (s e.ns e.id))) [
    | inl gone ↦ absurd (there gone)
    | inr (x, here) ↦ ground (arith, here, r.stored e.ns e.id e.rev)
  ]

  All-cold_rows :
      (P : ObjectRow → Type 0) (ks : List ColdRow) → All (λ k. P k.row) ks → All P (cold_rows ks)
  unfolding cold_rows
  All-cold_rows P [] h = tt
  All-cold_rows P (k ∷ ks) h = (h.0, All-cold_rows P ks h.1)

  sound-IsIntact :
      (v : Vault) (s : Spec) → IsRefined hash IsUsed v s → IsSound hash v s → IsIntact hash v
  sound-IsIntact v s r sound =
      let ordered = by_seq_chain hash 0 genesis_hash v.changelog sound.chain in
      let P : ObjectRow → Type 0 = λ x. cas_has x.cid v ≡ true in
      (
        rw ordered sound.chain,
        rw ordered (All-map (λ e. stored_of_version v s e r) v.changelog sound.linked),
        All-append P v.objects (cold_rows v.cold_objects) sound.present.0
            (All-cold_rows P v.cold_objects sound.present.1),
      )

  -- After any sequence of appends and compactions, from an empty vault, `verify` finds nothing
  -- wrong, and the head that it recomputes is the one that the next append links to. The digest is
  -- a text of 64 hexadecimal digits, without a collision among the texts that are in use.
  pub verify-run :
      (cs : List Command)
      → All (IsUsing hash IsUsed hex no_collision) cs
      → verify hash (run hash cs new_vault) ≡ record {
        ok = true;
        head_hash = chain_head (run hash cs new_vault).changelog;
        entries = length (run hash cs new_vault).changelog;
        corrupt_at = none;
        detail = none;
      }
  verify-run cs using =
      let v = run hash cs new_vault in
      let start : IsSound hash new_vault empty_spec = record {
        chain = tt;
        linked = tt;
        present = (tt, tt);
      } in
      let (r, sound) =
        run-IsSound cs new_vault empty_spec (empty-IsRefined hash IsUsed hex no_collision) start
          using in
      let ordered = by_seq_chain hash 0 genesis_hash v.changelog sound.chain in
      let ok = verify_ok hash v (sound-IsIntact v (spec_run cs empty_spec) r sound) in
      let head : (walk hash 0 genesis_hash (by_seq v.changelog)).head ≡ chain_head v.changelog =
        ap (λ es. (walk hash 0 genesis_hash es).head) ordered
        ∙ head_of_chain hash v.changelog sound.chain in
      ok
      ∙ ap
          (λ h. record {
            ok = true;
            head_hash = h;
            entries = length v.changelog;
            corrupt_at = none;
            detail = none;
          })
          head
