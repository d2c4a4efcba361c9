-- ===== src/Vault/Compact/Holds.antt =====
-- What holds of every row, hot or cold, holds of them after compaction.ts has run.
use mathlib.Core.Path.{subst}
use vivim_omega.Common.StrSet.{StrSet}
use vivim_omega.Common.StrSet
use vivim_omega.Common.Dict.{Dict}
use vivim_omega.Common.{
  ℕ, ◌+◌, ◌-◌, String, ◌&&◌, some, List, [], ◌∷◌, ◌++◌, ◌==◌, ◌≡◌, eqb, length, All, All-append,
  arith, Bool-cases, Option-cases, inl, inr,
}
use vivim_omega.Vault.Store.{ObjectRow, ColdRow, Vault, find_row, cold_rows}
use vivim_omega.Vault.Compact.{
  Pass, move_row, move_candidates, move_ids, compact, candidates, delete_row, ref_key,
  CompactResult, live_refs, group_by_id, rows_of,
}

-- what holds of every row of both tables
abbrev pub AllRows : (ObjectRow → Type 0) → List ObjectRow → List ColdRow → Type 0
AllRows P hot cold = All P hot × All (λ k. P k.row) cold

module _ (P : ObjectRow → Type 0) where
  All-found :
      (ns id : String) (rev : ℕ) (xs : List ObjectRow) {row : ObjectRow}
      → All P xs
      → find_row ns id rev xs ≡ some row
      → P row
  unfolding find_row
  All-found ns id rev [] h e = cc
  All-found ns id rev (x ∷ xs) {row} h e =
      elim (Bool-cases ((x.ns == ns && x.id == id) && eqb x.rev rev)) [
        | inl here ↦ let q : x ≡ row = ground (arith, here, e) in subst P q h.0
        | inr away ↦ All-found ns id rev xs h.1 (ground (arith, away, e))
      ]

  All-deleted :
      (ns id : String) (rev : ℕ) (xs : List ObjectRow) → All P xs → All P (delete_row ns id rev xs)
  unfolding delete_row
  All-deleted ns id rev [] h = tt
  All-deleted ns id rev (x ∷ xs) h =
      elim (Bool-cases ((x.ns == ns && x.id == id) && eqb x.rev rev)) [
        | inl gone ↦ rw gone (All-deleted ns id rev xs h.1)
        | inr stays ↦ rw stays (h.0, All-deleted ns id rev xs h.1)
      ]

  abbrev Holds : Pass → Type 0
  Holds p = AllRows P p.objects p.cold_objects

  move_row-Holds :
      (ns id : String) (rev now : ℕ) (p q : Pass)
      → move_row ns id rev now p ≡ some q
      → Holds p
      → Holds q
  unfolding move_row
  move_row-Holds ns id rev now p q e h = elim (Option-cases (find_row ns id rev p.objects)) [
    | inl nothing ↦ let same : p ≡ q = ground (arith, nothing, e) in subst Holds same h
    | inr (row, here) ↦ elim (Option-cases (find_row ns id rev (cold_rows p.cold_objects))) [
      | inr (k, there) ↦ absurd (ground (arith, here, there, e))
      | inl free ↦
          let q' : Pass = record p {
            objects = delete_row ns id rev p.objects;
            cold_objects = p.cold_objects ++ record { row = row; moved_at = now } ∷ [];
          } in
          let same : q' ≡ q = ground (arith, here, free, e) in
          subst Holds same (
            All-deleted ns id rev p.objects h.0,
            All-append (λ k. P k.row) p.cold_objects (record { row = row; moved_at = now } ∷ []) h.1
                (All-found ns id rev p.objects h.0 here, tt),
          )
    ]
  ]

  module _ (protected_refs : StrSet) (now : ℕ) (ns : String) where
    move_candidates-Holds :
        (id : String) (revs : List ℕ) (p q : Pass)
        → move_candidates protected_refs now ns id revs p ≡ some q
        → Holds p
        → Holds q
    unfolding move_candidates
    move_candidates-Holds id [] p q e h = let same : p ≡ q = ground (arith, e) in subst Holds same h
    move_candidates-Holds id (rev ∷ revs) p q e h =
        elim (Bool-cases (StrSet.has (ref_key ns id rev) protected_refs)) [
          | inl protected ↦
              let p' = record p { kept = p.kept + 1; protected = p.protected + 1 } in
              move_candidates-Holds id revs p' q (ground (arith, protected, e)) h
          | inr loose ↦ elim (Option-cases (move_row ns id rev now p)) [
            | inl throws ↦ absurd (ground (arith, loose, throws, e))
            | inr (m, f) ↦
                let m' = record m {
                  moved = m.moved + 1;
                  moved_targets = m.moved_targets ++ (id, rev) ∷ [];
                } in
                move_candidates-Holds id revs m' q (ground (arith, loose, f, e))
                  (move_row-Holds ns id rev now p m f h)
          ]
        ]

    move_ids-Holds :
        (keep : ℕ) (by_id : Dict (List ℕ)) (p q : Pass)
        → move_ids protected_refs now ns keep by_id p ≡ some q
        → Holds p
        → Holds q
    unfolding move_ids
    move_ids-Holds keep [] p q e h = let same : p ≡ q = ground (arith, e) in subst Holds same h
    move_ids-Holds keep ((id, revs) ∷ by_id) p q e h =
        let hot = length revs - length (candidates keep revs) in
        let p' = record p { kept = p.kept + hot } in
        elim (Option-cases (move_candidates protected_refs now ns id (candidates keep revs) p')) [
          | inl throws ↦ absurd (ground (arith, throws, e))
          | inr (m, f) ↦
              move_ids-Holds keep by_id m q (ground (arith, f, e))
                (move_candidates-Holds id (candidates keep revs) p' m f h)
        ]

  pub compact_holds :
      (ns : String) (keep now : ℕ) (v : Vault) (done : CompactResult × Vault)
      → compact ns keep now v ≡ some done
      → AllRows P v.objects v.cold_objects
      → AllRows P done.1.objects done.1.cold_objects
  unfolding compact
  compact_holds ns keep now v done e h =
      let start : Pass = record {
        objects = v.objects;
        cold_objects = v.cold_objects;
        moved = 0;
        kept = 0;
        protected = 0;
        moved_targets = [];
      } in
      let refs = live_refs [] v.objects in
      let by_id = group_by_id [] (rows_of ns v.objects) in
      elim (Option-cases (move_ids refs now ns keep by_id start)) [
        | inl throws ↦ absurd (ground (arith, throws, e))
        | inr (q, f) ↦
            let hot : done.1.objects ≡ q.objects = ground (arith, f, e) in
            let cold : done.1.cold_objects ≡ q.cold_objects = ground (arith, f, e) in
            rw hot (rw cold (move_ids-Holds refs now ns keep by_id start q f h))
      ]
