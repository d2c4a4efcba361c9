-- ===== src/Vault/Compact/Kept.antt =====
-- What the transaction of compaction.ts keeps of the two tables.
use mathlib.Core.Path.{subst}
use vivim_omega.Common.StrSet.{StrSet}
use vivim_omega.Common.Dict.{Dict}
use vivim_omega.Common.StrSet
use vivim_omega.Common.{
  ℕ, ◌+◌, ◌-◌, ◌≤◌, String, false, Option, some, List, [], ◌∷◌, ◌++◌, ◌==◌, ◌≡◌, refl, length, All,
  All-map, arith, Bool-cases, Option-cases, inl, inr, sym,
}
use vivim_omega.Vault.Store.{ObjectRow, Vault, find_row, latest_row}
use vivim_omega.Vault.Compact.{
  Pass, move_row, move_candidates, move_ids, candidates, ref_key, rows_of, group_by_id,
  CompactResult, compact, live_refs, fts_delete_many,
}
use vivim_omega.Vault.Compact.Groups.{All-group_by_id}
use vivim_omega.Vault.Rows.{revs_of, Ascending, candidates-below, All-candidates, revs_of-none}
use vivim_omega.Vault.Compact.Moved.{
  Kept, IsWf, KeptBy, Kept_trans, IsWfPass, Superseded, Superseded-kept, hot', cold', stored_after,
  latest_after, IsWf-after,
}

-- a step of the transaction is made, and keeps the tables
abbrev Goes : Pass → Option Pass → Type 0
Goes p o = (q : Pass) × (o ≡ some q) × IsWfPass q × KeptBy p q

move_row-Goes :
    (ns id : String) (rev now : ℕ) (p : Pass)
    → IsWfPass p
    → Superseded p.objects ns id rev
    → Goes p (move_row ns id rev now p)
unfolding move_row
move_row-Goes ns id rev now p wf old = elim (Option-cases (find_row ns id rev p.objects)) [
  | inl e ↦ (p, ground (arith, e), wf, record { stored = λ _ _ _. refl; latest = λ _ _. refl })
  | inr (row, e) ↦ (
    record p {
      objects = hot' ns id rev p.objects p.cold_objects row now wf e;
      cold_objects = cold' ns id rev p.objects p.cold_objects row now wf e;
    },
    ground (arith, e, wf.apart ns id rev e),
    IsWf-after ns id rev p.objects p.cold_objects row now wf e,
    record {
      stored = stored_after ns id rev p.objects p.cold_objects row now wf e;
      latest = latest_after ns id rev p.objects p.cold_objects row now wf e old;
    },
  )
]

module _ (protected_refs : StrSet) (now : ℕ) (ns : String) where
  All-kept :
      (id : String) (revs : List ℕ) (p q : Pass)
      → KeptBy p q
      → All (λ rev. Superseded p.objects ns id rev) revs
      → All (λ rev. Superseded q.objects ns id rev) revs
  All-kept id [] p q k old = tt
  All-kept id (rev ∷ revs) p q k old =
      (Superseded-kept p q ns id rev k old.0, All-kept id revs p q k old.1)

  move_candidates-Goes :
      (id : String) (revs : List ℕ) (p : Pass)
      → IsWfPass p
      → All (λ rev. Superseded p.objects ns id rev) revs
      → Goes p (move_candidates protected_refs now ns id revs p)
  unfolding move_candidates
  move_candidates-Goes id [] p wf old =
      (p, refl, wf, record { stored = λ _ _ _. refl; latest = λ _ _. refl })
  move_candidates-Goes id (rev ∷ revs) p wf old =
      elim (Bool-cases (StrSet.has (ref_key ns id rev) protected_refs)) [
        | inl protected ↦
            let p' = record p { kept = p.kept + 1; protected = p.protected + 1 } in
            let (r, f, wf_r, l) = move_candidates-Goes id revs p' wf old.1 in
            (r, ground (arith, protected, f), wf_r, l)
        | inr loose ↦
            let (q, e, wf_q, k) = move_row-Goes ns id rev now p wf old.0 in
            let q' = record q {
              moved = q.moved + 1;
              moved_targets = q.moved_targets ++ (id, rev) ∷ [];
            } in
            let (r, f, wf_r, l) =
              move_candidates-Goes id revs q' wf_q (All-kept id revs p q k old.1) in
            (r, ground (arith, loose, e, f), wf_r, Kept_trans p q r k l)
      ]

  -- what `byId` holds of an id: only superseded revisions are candidates
  abbrev Old : List ObjectRow → ℕ → String × List ℕ → Type 0
  Old hot keep (id, revs) = All (λ rev. Superseded hot ns id rev) (candidates keep revs)

  Old-kept :
      (keep : ℕ) (by_id : Dict (List ℕ)) (p q : Pass)
      → KeptBy p q
      → All (Old p.objects keep) by_id
      → All (Old q.objects keep) by_id
  Old-kept keep [] p q k old = tt
  Old-kept keep ((id, revs) ∷ by_id) p q k old =
      (All-kept id (candidates keep revs) p q k old.0, Old-kept keep by_id p q k old.1)

  move_ids-Goes :
      (keep : ℕ) (by_id : Dict (List ℕ)) (p : Pass)
      → IsWfPass p
      → All (Old p.objects keep) by_id
      → Goes p (move_ids protected_refs now ns keep by_id p)
  unfolding move_ids
  move_ids-Goes keep [] p wf old =
      (p, refl, wf, record { stored = λ _ _ _. refl; latest = λ _ _. refl })
  move_ids-Goes keep ((id, revs) ∷ by_id) p wf old =
      let hot = length revs - length (candidates keep revs) in
      let p' = record p { kept = p.kept + hot } in
      let (q, e, wf_q, k) = move_candidates-Goes id (candidates keep revs) p' wf old.0 in
      let (r, f, wf_r, l) = move_ids-Goes keep by_id q wf_q (Old-kept keep by_id p q k old.1) in
      (r, ground (arith, e, f), wf_r, Kept_trans p q r k l)

  Old-at_start :
      (keep : ℕ) (hot : List ObjectRow)
      → 1 ≤ keep
      → ((id : String) → Ascending (revs_of ns id hot))
      → All (Old hot keep) (group_by_id [] (rows_of ns hot))
  Old-at_start keep hot some_kept up = All-group_by_id (Old hot keep) ns hot up (λ id.
      elim (Option-cases (latest_row ns id hot)) [
        | inl nothing ↦
            let P : ℕ → Type 0 = λ rev. Superseded hot ns id rev in
            All-candidates P keep (revs_of ns id hot)
              (subst (All P) (sym (revs_of-none ns id hot (up id) nothing)) tt)
        | inr (m, e) ↦
            All-map (λ rev lt. (m, e, lt)) (candidates keep (revs_of ns id hot))
              (candidates-below ns id keep hot (up id) e some_kept)
      ])

-- Compaction of a namespace, not the empty text, with `keep` at least 1 does not throw on tables
-- that hold each revision once; afterwards they hold each once. What
-- is stored of a revision, hot or cold, and which revision of an object is the newest hot one, are
-- the same after it; the changelog and the blobs are not touched.
pub compact-Kept :
    (ns : String) (keep now : ℕ) (v : Vault)
    → (ns == "") ≡ false
    → 1 ≤ keep
    → IsWf v.objects v.cold_objects
    → (done : CompactResult × Vault) × (compact ns keep now v ≡ some done)
      × IsWf done.1.objects done.1.cold_objects
      × Kept v.objects v.cold_objects done.1.objects done.1.cold_objects
      × (done.1.changelog ≡ v.changelog)
      × (done.1.cas ≡ v.cas)
unfolding compact
compact-Kept ns keep now v named some_kept wf =
    let start : Pass = record {
      objects = v.objects;
      cold_objects = v.cold_objects;
      moved = 0;
      kept = 0;
      protected = 0;
      moved_targets = [];
    } in
    let old =
      Old-at_start (live_refs [] v.objects) now ns keep v.objects some_kept
        (λ id. wf.ascending ns id) in
    let (q, e, wf_q, k) =
      move_ids-Goes (live_refs [] v.objects) now ns keep (group_by_id [] (rows_of ns v.objects))
        start wf old in
    (
      (
        record { moved = q.moved; kept = q.kept; protected = q.protected },
        record v {
          objects = q.objects;
          cold_objects = q.cold_objects;
          fts_index = fts_delete_many ns q.moved_targets v.fts_index;
        },
      ),
      ground (arith, named, some_kept, e),
      wf_q,
      k,
      refl,
      refl,
    )
