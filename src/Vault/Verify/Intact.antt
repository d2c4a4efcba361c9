-- ===== src/Vault/Verify/Intact.antt =====
-- What verify.ts accepts: an intact vault.
use mathlib.Core.Path.{subst}
use vivim_omega.Common.StrSet
use vivim_omega.Common.StrSet.{StrSet}
use vivim_omega.Common.{
  ℕ, suc, ◌+◌, ◌≤◌, String, true, Option, none, List, [], ◌∷◌, ◌++◌, ◌==◌, ◌≡◌, ◌↔◌, refl, sym,
  length, All, arith, eq_iff, Bool-cases, Option-cases, inl, inr, eq_refl,
}
use vivim_omega.Vault.Canon.{entry_hash, genesis_hash}
use vivim_omega.Vault.Store.{ObjectRow, ChangelogRow, Vault, cas_has, cold_rows}
use vivim_omega.Vault.Verify.{
  walk, by_seq, first_dangling, is_stored, distinct_cids, probe_blobs, blame_unless, chain_corrupt,
  verify, Detail,
}

-- the entries from position `i` on, after the entry hash `prev`: numbered without a gap, each with
-- the hash of the one before it and with its own
abbrev pub IsChain : (String → String) → ℕ → String → List ChangelogRow → Type 0
IsChain hash i prev [] = Unit
IsChain hash i prev (e ∷ es) =
    (e.seq ≡ i + 1)
    × (e.prev_hash ≡ prev)
    × (e.entry_hash ≡ entry_hash hash e.seq e.causation_id e.ns e.id e.rev e.cid prev)
    × IsChain hash (suc i) e.entry_hash es

-- the chain holds, every entry has a stored revision, and every stored revision has its blob
abbrev pub IsIntact : (String → String) → Vault → Type 0
IsIntact hash v =
    IsChain hash 0 genesis_hash (by_seq v.changelog)
    × All (λ e. is_stored v e.ns e.id e.rev ≡ true) (by_seq v.changelog)
    × All (λ row. cas_has row.cid v ≡ true) (v.objects ++ cold_rows v.cold_objects)

module _ (hash : String → String) where
  walk_chain :
      (i : ℕ) (prev : String) (es : List ChangelogRow)
      → IsChain hash i prev es
      → (walk hash i prev es).corrupt ≡ none
  unfolding walk
  walk_chain i prev [] h = refl
  walk_chain i prev (e ∷ es) (seq, link, own, rest) =
      let ih =
        subst (λ c. (walk hash (suc i) c es).corrupt ≡ none) own
          (walk_chain (suc i) e.entry_hash es rest) in
      ground (arith, seq, link, own, ih, eq_refl e.prev_hash, eq_refl e.entry_hash)

  IsChain-of_walk :
      (i : ℕ) (prev : String) (es : List ChangelogRow)
      → (walk hash i prev es).corrupt ≡ none
      → IsChain hash i prev es
  unfolding walk
  IsChain-of_walk i prev [] h = tt
  IsChain-of_walk i prev (e ∷ es) h =
      let computed = entry_hash hash e.seq e.causation_id e.ns e.id e.rev e.cid prev in
      let own : e.entry_hash ≡ computed = ground (arith, h, eq_iff e.entry_hash computed) in
      let ih : (walk hash (suc i) computed es).corrupt ≡ none = ground (arith, h) in
      (
        ground (arith, h),
        ground (arith, h, eq_iff e.prev_hash prev),
        own,
        IsChain-of_walk (suc i) e.entry_hash es
            (subst (λ c. (walk hash (suc i) c es).corrupt ≡ none) (sym own) ih),
      )

dangling_none :
    (v : Vault) (es : List ChangelogRow)
    → first_dangling v es ≡ none ↔ All (λ e. is_stored v e.ns e.id e.rev ≡ true) es
unfolding first_dangling
dangling_none v [] = (λ _. tt, λ _. refl)
dangling_none v (e ∷ es) = elim (Bool-cases (is_stored v e.ns e.id e.rev)) [
  | inl here ↦ (
    (λ h. (here, (dangling_none v es).0 (ground (arith, here, h)))),
    (λ h. ground (arith, here, (dangling_none v es).1 h.1)),
  )
  | inr gone ↦ ((λ h. absurd (ground (arith, gone, h))), (λ h. absurd (ground (arith, gone, h.0))))
]

module _ (P : String → Type 0) where
  All-add : (k : String) (xs : StrSet) → All P (StrSet.add k xs) ↔ P k × All P xs
  unfolding StrSet.add
  All-add k [] = (λ h. h, λ h. h)
  All-add k (x ∷ xs) = elim (Bool-cases (x == k)) [
    | inl same ↦
        let e : x ≡ k = (eq_iff x k).0 same in rw same ((λ h. (subst P e h.0, h)), (λ h. h.1))
    | inr other ↦
        let (to, from) = All-add k xs in
        rw other ((λ h. let (a, b) = to h.1 in (a, (h.0, b))), (λ h. (h.1.0, from (h.0, h.1.1))))
  ]

  All-distinct_cids :
      (rows : List ObjectRow) → All P (distinct_cids rows) ↔ All (λ row. P row.cid) rows
  unfolding distinct_cids
  All-distinct_cids [] = (λ h. h, λ h. h)
  All-distinct_cids (row ∷ rows) =
      let (to, from) = All-add row.cid (distinct_cids rows) in
      let (to', from') = All-distinct_cids rows in
      ((λ h. let (a, b) = to h in (a, to' b)), (λ h. from (h.0, from' h.1)))

module _ (v : Vault) where
  probe_present :
      (m : ℕ) (c : Option (ℕ × Detail)) (cids : StrSet)
      → All (λ cid. cas_has cid v ≡ true) cids
      → probe_blobs v m c cids ≡ (m, c)
  unfolding probe_blobs
  probe_present m c [] h = refl
  probe_present m c (cid ∷ cids) h = ground (arith, h.0, probe_present m c cids h.1)

  probe_least : (m : ℕ) (c : Option (ℕ × Detail)) (cids : StrSet) → m ≤ (probe_blobs v m c cids).0
  unfolding probe_blobs
  probe_least m c [] = omega arith
  probe_least m c (cid ∷ cids) = elim (Bool-cases (cas_has cid v)) [
    | inl here ↦ ground (arith, here, probe_least m c cids)
    | inr gone ↦ ground (arith, gone, probe_least (m + 1) (blame_unless v c cid) cids)
  ]

  present_of_probe :
      (m : ℕ) (c : Option (ℕ × Detail)) (cids : StrSet)
      → (probe_blobs v m c cids).0 ≡ m
      → All (λ cid. cas_has cid v ≡ true) cids
  unfolding probe_blobs
  present_of_probe m c [] h = tt
  present_of_probe m c (cid ∷ cids) h = elim (Bool-cases (cas_has cid v)) [
    | inl here ↦ (here, present_of_probe m c cids (ground (arith, here, h)))
    | inr gone ↦ absurd (ground (arith, gone, h, probe_least (m + 1) (blame_unless v c cid) cids))
  ]

module _ (hash : String → String) (v : Vault) where
  abbrev rows : List ObjectRow
  rows = v.objects ++ cold_rows v.cold_objects

  present_of_ok : (verify hash v).ok ≡ true → All (λ cid. cas_has cid v ≡ true) (distinct_cids rows)
  unfolding verify
  present_of_ok ok =
      present_of_probe v 0 (chain_corrupt hash v) (distinct_cids rows) (ground (arith, ok))

  sound_of_ok : (verify hash v).ok ≡ true → chain_corrupt hash v ≡ none
  unfolding verify
  sound_of_ok ok =
      let p = probe_present v 0 (chain_corrupt hash v) (distinct_cids rows) (present_of_ok ok) in
      elim (Option-cases (chain_corrupt hash v)) [
        | inl e ↦ e
        | inr (c, e) ↦ absurd (ground (arith, ok, p, e))
      ]

  -- `verify` answers ok on the intact vaults, and on no others: an entry that is missing, out of
  -- order, changed, without its revision, or a stored revision without its blob is reported.
  pub verify-IsIntact : (verify hash v).ok ≡ true ↔ IsIntact hash v
  unfolding verify chain_corrupt
  verify-IsIntact = (
    (λ ok.
        let sound = sound_of_ok ok in
        let es = by_seq v.changelog in
        let walked : (walk hash 0 genesis_hash es).corrupt ≡ none =
          elim (Option-cases (walk hash 0 genesis_hash es).corrupt) [
            | inl e ↦ e
            | inr (c, e) ↦ absurd (ground (arith, sound, e))
          ] in
        let linked : first_dangling v es ≡ none = elim (Option-cases (first_dangling v es)) [
          | inl e ↦ e
          | inr (c, e) ↦ absurd (ground (arith, sound, walked, e))
        ] in
        (
          IsChain-of_walk hash 0 genesis_hash es walked,
          (dangling_none v es).0 linked,
          (All-distinct_cids (λ cid. cas_has cid v ≡ true) rows).0 (present_of_ok ok),
        )),
    (λ (chain, linked, present).
        let es = by_seq v.changelog in
        ground (
          arith,
          walk_chain hash 0 genesis_hash es chain,
          (dangling_none v es).1 linked,
          probe_present v 0 (chain_corrupt hash v) (distinct_cids rows)
              ((All-distinct_cids (λ cid. cas_has cid v ≡ true) rows).1 present),
        )),
  )

  -- the whole answer on an intact vault
  pub verify_ok :
      IsIntact hash v
      → verify hash v ≡ record {
        ok = true;
        head_hash = (walk hash 0 genesis_hash (by_seq v.changelog)).head;
        entries = length v.changelog;
        corrupt_at = none;
        detail = none;
      }
  unfolding verify chain_corrupt
  verify_ok (chain, linked, present) =
      let es = by_seq v.changelog in
      ground (
        arith,
        walk_chain hash 0 genesis_hash es chain,
        (dangling_none v es).1 linked,
        probe_present v 0 (chain_corrupt hash v) (distinct_cids rows)
            ((All-distinct_cids (λ cid. cas_has cid v ≡ true) rows).1 present),
      )
