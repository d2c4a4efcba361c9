-- ===== src/Vault/Reads.antt =====
-- Reading back what plugins/vivim-vault/src/changelog.ts appended.
use vivim_omega.Common.{
  ◌+◌, String, true, none, some, List, [], ◌∷◌, ◌++◌, ◌≡◌, refl, ◌∙◌, ap, length, All, arith,
  eq_refl, length-append, ℕ, false, ◌⊎◌, inl, inr, Bool-cases,
}
use vivim_omega.Vault.Canon.{canonical_json, Json}
use vivim_omega.Vault.Json.{json_value, is_plain, json_value_plain}
use vivim_omega.Vault.Store.{ObjectRecord, Vault, is_cid, read_object, new_vault}
use vivim_omega.Vault.Append.{AppendInput, AppendResult, append_object, max_seq}
use vivim_omega.Vault.Spec.{
  Command, run, append, version?, version_of, spec_step, spec_run, empty_spec, record_from,
}
use vivim_omega.Vault.Refined.{read_of_refined}
use vivim_omega.Vault.Grown.Append.{append_object-IsRefined, spec_at}
use vivim_omega.Vault.Grown.{version?-append, version?_past}
use vivim_omega.Vault.Refinement.{IsUsing, run-IsRefined, empty-IsRefined}

-- the record of an append with the canonical text `t`
abbrev pub as_appended : (String → String) → ℕ → String → AppendInput → ObjectRecord
as_appended hash rev t input = record {
  rev = rev;
  cid = hash t;
  data_ = t;
  meta = json_value input.meta;
  refs = input.refs;
}

plain_or_not : (meta : Json) → (is_plain meta ≡ false) ⊎ (json_value meta ≡ meta)
plain_or_not meta = elim (Bool-cases (is_plain meta)) [
  | inl plain ↦ inr (json_value_plain meta plain)
  | inr other ↦ inl other
]

module _ (hash : String → String) (IsUsed : String → Type 0)
    (hex : (t : String) → is_cid (hash t) ≡ true)
    (no_collision : (t u : String) → IsUsed t → IsUsed u → hash t ≡ hash u → t ≡ u) where
  -- After any sequence of appends and compactions, appending data that have a canonical text does
  -- not throw. The revision that it answers is one more than the number of versions of the object,
  -- and a read of that revision, and a read of the newest one, answer the data's canonical text
  -- with their digest, the refs, and the meta as JSON gives it back, which is the meta itself where
  -- nothing in it is undefined. The digest is a text of 64 hexadecimal digits, without a collision
  -- among the texts that are in use.
  pub append_object-read_object :
      (cs : List Command)
      → All (IsUsing hash IsUsed hex no_collision) cs
      → (input : AppendInput) (t : String) → canonical_json input.data_ ≡ some t
      → IsUsed t
      → (result : AppendResult) × (w : Vault) × (append_object hash input (run hash cs new_vault)
          ≡ (some result, w))
        × (result.rev ≡ length (spec_run cs empty_spec input.ns input.id) + 1)
        × (read_object w input.ns input.id (some result.rev)
            ≡ some (as_appended hash result.rev t input))
        × (read_object w input.ns input.id none ≡ some (as_appended hash result.rev t input))
        × ((is_plain input.meta ≡ false) ⊎ (json_value input.meta ≡ input.meta))
  append_object-read_object cs using input t canonical used =
      let v = run hash cs new_vault in
      let s = spec_run cs empty_spec in
      let r =
        run-IsRefined hash IsUsed hex no_collision cs new_vault empty_spec
          (empty-IsRefined hash IsUsed hex no_collision) using in
      let (w, done, refined) =
        append_object-IsRefined hash IsUsed hex no_collision v s input t r canonical used in
      let xs = s input.ns input.id in
      let s' = spec_step (append input) s in
      let rev = length xs + 1 in
      let added = version_of input t in
      let grown : s' input.ns input.id ≡ xs ++ added ∷ [] =
        spec_at hash IsUsed hex no_collision v s input t r canonical used input.ns input.id
        ∙ ground (arith, eq_refl input.ns, eq_refl input.id) in
      let there : version? rev (xs ++ added ∷ []) ≡ some added =
        ground (arith, version?-append rev xs added, version?_past xs rev (omega arith)) in
      let count : length (xs ++ added ∷ []) ≡ rev = omega (arith, length-append xs (added ∷ [])) in
      (
        record { rev = rev; cid = hash t; seq = max_seq v.changelog + 1 },
        w,
        done,
        refl,
        read_of_refined hash IsUsed hex w s' refined input.ns input.id (some rev)
            ∙ ap (λ xs. record_from hash rev (version? rev xs)) grown
            ∙ ap (record_from hash rev) there,
        read_of_refined hash IsUsed hex w s' refined input.ns input.id none
            ∙ ap (λ xs. record_from hash (length xs) (version? (length xs) xs)) grown
            ∙ ap (λ n. record_from hash n (version? n (xs ++ added ∷ []))) count
            ∙ ap (record_from hash rev) there,
        plain_or_not input.meta,
      )
