-- ===== src/Vault/Grown.antt =====
-- The writes of plugins/vivim-vault/src keep the tables in step with the versions that were
-- appended: the tables with one version more.
pub mod Append
use mathlib.Core.Path.{subst}
use vivim_omega.Common.Dict
use vivim_omega.Common.{
  ℕ, zero, suc, ◌+◌, ◌<◌, String, true, ◌&&◌, none, some, List, [], ◌∷◌, ◌++◌, ◌==◌, ◌≡◌, refl, sym,
  ◌∙◌, ap, eqb, length, All, arith, eq_iff, eq_refl, Bool-cases, Option-cases, inl, inr, ◌≢◌,
  All-map, All-append, max, length-append, if◌then◌else◌,
}
use vivim_omega.Vault.Canon.{canonical_json, body_text, Json}
use vivim_omega.Vault.Store.{ObjectRow, ChangelogRow, Vault, is_cid, find_row, latest_row, is_at}
use vivim_omega.Vault.Append.{
  max_rev, AppendInput, cas_put, append_rows, append_object, max_seq, next_entry, AppendResult,
}
use vivim_omega.Vault.Rows.{first_of, find_row-append, revs_of}
use vivim_omega.Vault.Rows.Appended.{
  latest_row-append_here, latest_row-append_away, Ascending-append, below_latest,
}
use vivim_omega.Vault.Compact.Moved.{IsWf, stored_row}
use vivim_omega.Vault.Spec.{append, Spec, Version, version?, version_of, spec_step, spec_row}
use vivim_omega.Vault.Refined.{IsRefined}

max_rev-append :
    (ns id : String) (es : List ChangelogRow) (e : ChangelogRow)
    → max_rev ns id (es ++ e ∷ []) ≡ max (max_rev ns id es) (max_rev ns id (e ∷ []))
unfolding max_rev
max_rev-append ns id [] e = ground arith
max_rev-append ns id (f ∷ es) e = ground (arith, max_rev-append ns id es e)

pub version?-append :
    (rev : ℕ) (xs : List Version) (x : Version)
    → version? rev (xs ++ x ∷ [])
      ≡ first_of (version? rev xs) (if eqb rev (suc (length xs)) then some x else none)
version?-append zero xs x = ground arith
version?-append (suc zero) [] x = refl
version?-append (suc (suc i)) [] x = ground arith
version?-append (suc zero) (y ∷ xs) x = ground arith
version?-append (suc (suc i)) (y ∷ xs) x = ground (arith, version?-append (suc i) xs x)

pub version?_past : (xs : List Version) (rev : ℕ) → length xs < rev → version? rev xs ≡ none
version?_past xs zero lt = refl
version?_past [] (suc i) lt = refl
version?_past (x ∷ xs) (suc zero) lt = absurd (omega (arith, lt))
version?_past (x ∷ xs) (suc (suc i)) lt = version?_past xs (suc i) (omega (arith, lt))

-- the body is there when the canonical text is
pub body_of_canonical :
    (j : Json) {t : String} → canonical_json j ≡ some t → (b : String) × (body_text j ≡ some b)
unfolding canonical_json body_text
body_of_canonical Json.undefined e = cc
body_of_canonical Json.null e = (_, refl)
body_of_canonical (Json.boolean b) e = (_, refl)
body_of_canonical (Json.number n) e = (_, refl)
body_of_canonical (Json.text s) e = (_, refl)
body_of_canonical (Json.array xs) e = (_, e)
body_of_canonical (Json.object fs) e = (_, e)

-- the tables with the next version of an object
module _ (hash : String → String) (IsUsed : String → Type 0) (v : Vault) (s : Spec)
    (r : IsRefined hash IsUsed v s) (ns id : String) (x : Version) where
  abbrev next_rev : ℕ
  next_rev = length (s ns id) + 1

  abbrev pub new_row : ObjectRow
  new_row = record { ns = ns; id = id; rev = next_rev; cid = hash x.body; meta = x.envelope }

  abbrev pub grown : Spec
  grown ns' id' = if ns == ns' && id == id' then s ns' id' ++ x ∷ [] else s ns' id'

  abbrev hot' : List ObjectRow
  hot' = v.objects ++ new_row ∷ []

  pub fresh : stored_row v.objects v.cold_objects ns id next_rev ≡ none
  fresh = ground (arith, r.stored ns id next_rev, version?_past (s ns id) next_rev (omega arith))

  at_new : (ns' id' : String) → is_at ns' id' new_row ≡ (ns == ns' && id == id')
  at_new ns' id' = refl

  pub stored_grown :
      (ns' id' : String) (rev : ℕ)
      → stored_row hot' v.cold_objects ns' id' rev ≡ spec_row hash grown ns' id' rev
  unfolding find_row
  stored_grown ns' id' rev = elim (Bool-cases (ns == ns' && id == id')) [
    | inl here ↦ ground (
      arith,
      here,
      fresh,
      r.stored ns' id' rev,
      version?-append rev (s ns' id') x,
      find_row-append ns' id' rev v.objects (new_row ∷ []),
      eq_iff ns ns',
      eq_iff id id',
    )
    | inr away ↦
        ground
          (arith, away, r.stored ns' id' rev, find_row-append ns' id' rev v.objects (new_row ∷ []))
  ]

  older : (row : ObjectRow) → latest_row ns id v.objects ≡ some row → row.rev < next_rev
  older row e = elim (Option-cases (version? (length (s ns id)) (s ns id))) [
    | inl nothing ↦ absurd (ground (arith, e, nothing, r.latest ns id))
    | inr (y, f) ↦ ground (arith, e, f, r.latest ns id)
  ]

  below : All (λ k. k < next_rev) (revs_of ns id v.objects)
  below = below_latest ns id next_rev v.objects (r.wf.ascending ns id) older

  latest_new : latest_row ns id hot' ≡ some new_row
  latest_new =
      latest_row-append_here ns id new_row v.objects (ground (arith, eq_refl ns, eq_refl id)) below

  pub latest_grown :
      (ns' id' : String)
      → latest_row ns' id' hot' ≡ spec_row hash grown ns' id' (length (grown ns' id'))
  latest_grown ns' id' = elim (Bool-cases (ns == ns' && id == id')) [
    | inl here ↦
        let xs = s ns' id' in
        ground (
          arith,
          here,
          latest_new,
          eq_iff ns ns',
          eq_iff id id',
          length-append xs (x ∷ []),
          version?-append (suc (length xs)) xs x,
          version?_past xs (suc (length xs)) (omega arith),
        )
    | inr away ↦
        ground
          (arith, away, latest_row-append_away ns' id' new_row v.objects away, r.latest ns' id')
  ]

  pub IsWf-grown : IsWf hot' v.cold_objects
  unfolding find_row
  IsWf-grown = record {
    apart = λ ns' id' rev {row = row} found. elim (Option-cases (find_row ns' id' rev v.objects)) [
      | inr (row', e) ↦ r.wf.apart ns' id' rev e
      | inl e ↦ ground (
        arith,
        e,
        found,
        fresh,
        find_row-append ns' id' rev v.objects (new_row ∷ []),
        eq_iff ns ns',
        eq_iff id id',
      )
    ];
    ascending = λ ns' id'.
        Ascending-append ns' id' new_row v.objects (r.wf.ascending ns' id') (λ here.
          let e : ns ≡ ns' = ground (arith, here, eq_iff ns ns') in
          let f : id ≡ id' = ground (arith, here, eq_iff id id') in
          subst (λ b. All (λ k. k < next_rev) (revs_of ns' b v.objects)) f
            (subst (λ a. All (λ k. k < next_rev) (revs_of a id v.objects)) e below));
  }

  pub revs_grown :
      (e : ChangelogRow)
      → e.ns ≡ ns
      → e.id ≡ id
      → e.rev ≡ next_rev
      → (ns' id' : String) → max_rev ns' id' (v.changelog ++ e ∷ []) ≡ length (grown ns' id')
  unfolding max_rev
  revs_grown e same_ns same_id same_rev ns' id' = ground (
    arith,
    same_ns,
    same_id,
    same_rev,
    max_rev-append ns' id' v.changelog e,
    r.revs ns' id',
    length-append (s ns' id') (x ∷ []),
    eq_iff ns ns',
    eq_iff id id',
  )

  pub blobs_grown :
      (cas : Dict.Dict String)
      → ((cid u : String) → Dict.get cid v.cas ≡ some u → Dict.get cid cas ≡ some u)
      → Dict.get (hash x.body) cas ≡ some x.body
      → (ns' id' : String) → All (λ y. Dict.get (hash y.body) cas ≡ some y.body) (grown ns' id')
  blobs_grown cas kept there ns' id' =
      let old = All-map (λ y e. kept (hash y.body) y.body e) (s ns' id') (r.blobs ns' id') in
      elim (Bool-cases (ns == ns' && id == id')) [
        | inl here ↦ rw here (
            All-append (λ y. Dict.get (hash y.body) cas ≡ some y.body) (s ns' id') (x ∷ []) old
              (there, tt))
        | inr away ↦ rw away old
      ]
