-- ===== src/Vault/Refinement.antt =====
-- The vault of plugins/vivim-vault/src and the versions that were appended to it, over runs of
-- commands.
use mathlib.Core.Path.{subst}
use vivim_omega.Common.Dict
use vivim_omega.Common.{
  ℕ, String, true, ◌||◌, ltb, Option, some, List, [], ◌∷◌, ◌==◌, ◌≡◌, refl, sym, ◌∙◌, ap, All,
  arith, Bool-cases, Option-cases, inl, inr,
}
use vivim_omega.Vault.Canon.{canonical_json}
use vivim_omega.Vault.Store.{Vault, is_cid, find_row, latest_row, cold_rows, read_object, new_vault}
use vivim_omega.Vault.Append.{max_rev, AppendInput, cas_put, append_object}
use vivim_omega.Vault.Compact.{compact}
use vivim_omega.Vault.Rows.{revs_of}
use vivim_omega.Vault.Compact.Kept.{compact-Kept}
use vivim_omega.Vault.Spec.{
  Command, append, compaction, step, run, Spec, spec_step, spec_run, spec_read, row_from,
  empty_spec,
}
use vivim_omega.Vault.Refined.{IsRefined, read_of_refined, version?_nil}
use vivim_omega.Vault.Grown.Append.{append_object-IsRefined}

module _ (hash : String → String) (IsUsed : String → Type 0)
    (hex : (t : String) → is_cid (hash t) ≡ true)
    (no_collision : (t u : String) → IsUsed t → IsUsed u → hash t ≡ hash u → t ≡ u) where
  abbrev pub IsUsing : Command → Type 0
  IsUsing (append input) = (t : String) → canonical_json input.data_ ≡ some t → IsUsed t
  IsUsing (compaction ns keep now) = Unit

  append-IsRefined :
      (input : AppendInput) (v : Vault) (s : Spec)
      → IsRefined hash IsUsed v s
      → IsUsing (append input)
      → IsRefined hash IsUsed (step hash (append input) v) (spec_step (append input) s)
  unfolding step spec_step append_object cas_put
  append-IsRefined input v s r using = elim (Option-cases (canonical_json input.data_)) [
    | inl throws ↦
        let same : step hash (append input) v ≡ v = ground (arith, throws) in
        rw (throws, spec_step) (subst (λ w. IsRefined hash IsUsed w s) (sym same) r)
    | inr (t, e) ↦
        let (w, done, refined) =
          append_object-IsRefined hash IsUsed hex no_collision v s input t r e (using t e) in
        let at : step hash (append input) v ≡ w = ap (λ p. p.1) done in
        subst (λ w. IsRefined hash IsUsed w (spec_step (append input) s)) (sym at) refined
  ]

  compact-IsRefined :
      (ns : String) (keep now : ℕ) (v : Vault) (s : Spec)
      → IsRefined hash IsUsed v s
      → IsRefined hash IsUsed (step hash (compaction ns keep now) v) s
  unfolding step compact
  compact-IsRefined ns keep now v s r = elim (Bool-cases (ns == "" || ltb keep 1)) [
    | inl refused ↦
        let same : step hash (compaction ns keep now) v ≡ v = ground (arith, refused) in
        subst (λ w. IsRefined hash IsUsed w s) (sym same) r
    | inr guarded ↦
        let (done, e, wf, k, changelog, cas) =
          compact-Kept ns keep now v (ground (arith, guarded)) (ground (arith, guarded)) r.wf in
        let at : step hash (compaction ns keep now) v ≡ done.1 = ground (arith, e) in
        subst (λ w. IsRefined hash IsUsed w s) (sym at)
          (record {
            wf = wf;
            stored = λ a b rev. k.stored a b rev ∙ r.stored a b rev;
            latest = λ a b. k.latest a b ∙ r.latest a b;
            revs = λ a b. rw changelog (r.revs a b);
            blobs = λ a b. rw cas (r.blobs a b);
            used = λ cid {t = u} f. r.used cid (rw (sym cas) f);
          })
  ]

  pub step-IsRefined :
      (c : Command) (v : Vault) (s : Spec)
      → IsRefined hash IsUsed v s
      → IsUsing c
      → IsRefined hash IsUsed (step hash c v) (spec_step c s)
  unfolding spec_step
  step-IsRefined (append input) v s r using = append-IsRefined input v s r using
  step-IsRefined (compaction ns keep now) v s r using = compact-IsRefined ns keep now v s r

  pub run-IsRefined :
      (cs : List Command) (v : Vault) (s : Spec)
      → IsRefined hash IsUsed v s
      → All IsUsing cs
      → IsRefined hash IsUsed (run hash cs v) (spec_run cs s)
  unfolding run spec_run
  run-IsRefined [] v s r using = r
  run-IsRefined (c ∷ cs) v s r using =
      run-IsRefined cs (step hash c v) (spec_step c s) (step-IsRefined c v s r using.0) using.1

  pub empty-IsRefined : IsRefined hash IsUsed new_vault empty_spec
  unfolding find_row latest_row cold_rows max_rev revs_of Dict.get
  empty-IsRefined = record {
    wf = record { apart = λ ns id rev e. refl; ascending = λ ns id. tt };
    stored = λ ns id rev. ap (row_from hash ns id rev) (sym (version?_nil rev));
    latest = λ ns id. refl;
    revs = λ ns id. refl;
    blobs = λ ns id. tt;
    used = λ cid {t = u} e. absurd (ground (arith, e));
  }

  -- After any sequence of appends and compactions, from an empty vault, a read of a revision by its
  -- number answers the version of the object that was appended as that one of its versions, and a
  -- read without a number the last one, with its number, its digest, its data, its refs
  -- and its meta as JSON gives it back;
  -- there is no record where there is no such version. Compactions are not visible. The digest is a
  -- text of 64 hexadecimal digits, without a collision among the texts that are in use.
  pub read_object-run :
      (cs : List Command)
      → All IsUsing cs
      → (ns id : String) (rev : Option ℕ)
      → read_object (run hash cs new_vault) ns id rev
        ≡ spec_read hash (spec_run cs empty_spec) ns id rev
  read_object-run cs using ns id rev =
      read_of_refined hash IsUsed hex (run hash cs new_vault) (spec_run cs empty_spec)
        (run-IsRefined cs new_vault empty_spec empty-IsRefined using) ns id rev
