-- ===== src/Vault/Refined.antt =====
-- How the tables and blobs of plugins/vivim-vault/src stand for the versions that were appended,
-- and why reads agree.
use mathlib.Core.Path.{subst}
use vivim_omega.Common.Dict
use vivim_omega.Common.{
  ℕ, zero, suc, String, true, Option, none, some, List, [], ◌∷◌, ◌≡◌, refl, ◌∙◌, ap, length,
  get_elem?, All, arith, Option-cases, inl, inr, ◌≢◌,
}
use vivim_omega.Vault.Store.{
  ObjectRow, Vault, ObjectRecord, is_cid, cas_get, find_row, latest_row, cold_rows, row_of,
  record_of, read_object,
}
use vivim_omega.Vault.Append.{max_rev}
use vivim_omega.Vault.Compact.Moved.{IsWf, stored_row}
use vivim_omega.Vault.Spec.{Spec, Version, version?, spec_read, spec_row, row_from, record_from}

module _ (hash : String → String) (IsUsed : String → Type 0) where
  pub record IsRefined (v : Vault) (s : Spec) : Type 0 where
    pub wf : IsWf v.objects v.cold_objects
    pub stored :
        (ns id : String) (rev : ℕ)
        → stored_row v.objects v.cold_objects ns id rev ≡ spec_row hash s ns id rev
    pub latest :
        (ns id : String) → latest_row ns id v.objects ≡ spec_row hash s ns id (length (s ns id))
    pub revs : (ns id : String) → max_rev ns id v.changelog ≡ length (s ns id)
    pub blobs : (ns id : String) → All (λ x. Dict.get (hash x.body) v.cas ≡ some x.body) (s ns id)
    pub used : (cid : String) {t : String} → Dict.get cid v.cas ≡ some t → (cid ≡ hash t) × IsUsed t

find_of_latest :
    (ns id : String) (xs : List ObjectRow) (r : ObjectRow)
    → latest_row ns id xs ≡ some r
    → find_row ns id r.rev xs ≢ none
unfolding latest_row find_row
find_of_latest ns id [] r e = λ _. absurd (ground (arith, e))
find_of_latest ns id (x ∷ xs) r e = λ h. ground (arith, e, h, find_of_latest ns id xs r)

All-get_elem? :
    (P : Version → Type 0) (xs : List Version) (i : ℕ) {x : Version}
    → All P xs
    → get_elem? xs i ≡ some x
    → P x
All-get_elem? P [] i h e = cc
All-get_elem? P (y ∷ xs) zero {x} h e = let q : y ≡ x = ground arith in subst P q h.0
All-get_elem? P (y ∷ xs) (suc i) h e = All-get_elem? P xs i h.1 e

pub version?_nil : (rev : ℕ) → version? rev [] ≡ none
version?_nil zero = refl
version?_nil (suc i) = refl

version?-length : (xs : List Version) → version? (length xs) xs ≡ none → xs ≡ []
version?-length [] e = refl
version?-length (x ∷ []) e = ground (arith, e)
version?-length (x ∷ y ∷ xs) e = ground (arith, version?-length (y ∷ xs) e)

All-version? :
    (P : Version → Type 0) (rev : ℕ) (xs : List Version) {x : Version}
    → All P xs
    → version? rev xs ≡ some x
    → P x
All-version? P zero xs h e = cc
All-version? P (suc i) xs h e = All-get_elem? P xs i h e

row_of_rev :
    (v : Vault) (ns id : String) (rev : ℕ)
    → row_of v ns id (some rev) ≡ stored_row v.objects v.cold_objects ns id rev
unfolding row_of
row_of_rev v ns id rev = elim (Option-cases (find_row ns id rev v.objects)) [
  | inl e ↦ ground (arith, e)
  | inr (row, e) ↦ ground (arith, e)
]

module _ (hash : String → String) (IsUsed : String → Type 0)
    (hex : (t : String) → is_cid (hash t) ≡ true) (v : Vault) (s : Spec)
    (r : IsRefined hash IsUsed v s) where
  row_of_latest : (ns id : String) → row_of v ns id none ≡ spec_row hash s ns id (length (s ns id))
  unfolding row_of
  row_of_latest ns id = elim (Option-cases (latest_row ns id v.objects)) [
    | inr (row, e) ↦ ground (arith, e, r.latest ns id)
    | inl e ↦ elim (Option-cases (latest_row ns id (cold_rows v.cold_objects))) [
      | inl f ↦ ground (arith, e, f, r.latest ns id)
      | inr (row, f) ↦
          let no_version : version? (length (s ns id)) (s ns id) ≡ none =
            ground (arith, e, r.latest ns id) in
          let empty = version?-length (s ns id) no_version in
          let nothing : version? row.rev (s ns id) ≡ none =
            ap (version? row.rev) empty ∙ version?_nil row.rev in
          absurd (
            find_of_latest ns id (cold_rows v.cold_objects) row f
              (ground (arith, nothing, r.stored ns id row.rev)))
    ]
  ]

  record_of_version :
      (ns id : String) (rev : ℕ) (o : Option Version)
      → ((x : Version) → o ≡ some x → Dict.get (hash x.body) v.cas ≡ some x.body)
      → (elim (row_from hash ns id rev o) as (λ _. Option ObjectRecord) [
        | none ↦ none
        | some row ↦ record_of v row
      ])
        ≡ record_from hash rev o
  unfolding record_of cas_get
  record_of_version ns id rev none blob = refl
  record_of_version ns id rev (some x) blob = ground (arith, hex x.body, blob x refl)

  pub read_of_refined :
      (ns id : String) (rev : Option ℕ) → read_object v ns id rev ≡ spec_read hash s ns id rev
  unfolding read_object
  read_of_refined ns id (some rev) =
      rw (row_of_rev v ns id rev ∙ r.stored ns id rev, read_object)
        (record_of_version ns id rev (version? rev (s ns id)) (λ x e.
          All-version? (λ y. Dict.get (hash y.body) v.cas ≡ some y.body) rev (s ns id)
            (r.blobs ns id) e))
  read_of_refined ns id none =
      let n = length (s ns id) in
      rw (row_of_latest ns id, read_object)
        (record_of_version ns id n (version? n (s ns id)) (λ x e.
          All-version? (λ y. Dict.get (hash y.body) v.cas ≡ some y.body) n (s ns id) (r.blobs ns id)
            e))
