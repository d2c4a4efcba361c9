-- ===== src/Vault/Compact/Protected.antt =====
-- The provenance edges that compaction.ts honours: `protectedRefs`.
use vivim_omega.Common.StrSet
use vivim_omega.Common.StrSet.{StrSet}
use vivim_omega.Common.Dict.{Dict}
use vivim_omega.Common.{
  ℕ, ◌+◌, ◌-◌, String, true, false, some, List, [], ◌∷◌, ◌++◌, ◌≡◌, ◌∙◌, ap, length, arith, eq_iff,
  eq_refl, Bool-cases, Option-cases, inl, inr,
}
use vivim_omega.Vault.Store.{Ref, ObjectRow, Vault, find_row}
use vivim_omega.Vault.Compact.{
  Pass, move_row, move_candidates, move_ids, compact, candidates, ref_key, CompactResult, live_refs,
  add_refs, group_by_id, rows_of,
}
use vivim_omega.Vault.Rows.{same_key, find_row-delete_row_other}

has-add_refs :
    (k : String) (rs : List Ref) (out : StrSet)
    → StrSet.has k out ≡ true
    → StrSet.has k (add_refs rs out) ≡ true
unfolding add_refs
has-add_refs k [] out h = h
has-add_refs k (r ∷ rs) out h =
    let key = ref_key r.ns r.id r.rev in
    has-add_refs k rs (StrSet.add key out) (ground (arith, StrSet.has-add key k out, h))

has-live_refs :
    (k : String) (rows : List ObjectRow) (out : StrSet)
    → StrSet.has k out ≡ true
    → StrSet.has k (live_refs out rows) ≡ true
unfolding live_refs
has-live_refs k [] out h = h
has-live_refs k (row ∷ rows) out h =
    has-live_refs k rows (add_refs row.meta.refs out) (has-add_refs k row.meta.refs out h)

add_refs_of :
    (rs qs : List Ref) (ref : Ref) (out : StrSet)
    → StrSet.has (ref_key ref.ns ref.id ref.rev) (add_refs (rs ++ ref ∷ qs) out) ≡ true
unfolding add_refs
add_refs_of [] qs ref out =
    let key = ref_key ref.ns ref.id ref.rev in
    has-add_refs key qs (StrSet.add key out)
      (ground (arith, StrSet.has-add key key out, eq_refl key))
add_refs_of (r ∷ rs) qs ref out = add_refs_of rs qs ref (StrSet.add (ref_key r.ns r.id r.rev) out)

live_refs_of :
    (xs ys : List ObjectRow) (row : ObjectRow) (rs qs : List Ref) (ref : Ref) (out : StrSet)
    → row.meta.refs ≡ rs ++ ref ∷ qs
    → StrSet.has (ref_key ref.ns ref.id ref.rev) (live_refs out (xs ++ row ∷ ys)) ≡ true
unfolding live_refs
live_refs_of [] ys row rs qs ref out e =
    has-live_refs (ref_key ref.ns ref.id ref.rev) ys (add_refs row.meta.refs out)
      (rw e (add_refs_of rs qs ref out))
live_refs_of (x ∷ xs) ys row rs qs ref out e =
    live_refs_of xs ys row rs qs ref (add_refs x.meta.refs out) e

module _ (protected_refs : StrSet) (now : ℕ) (ns ns' id' : String) (rev' : ℕ)
    (safe : StrSet.has (ref_key ns' id' rev') protected_refs ≡ true) where
  -- the row stays where it is
  abbrev Stays : Pass → Pass → Type 0
  Stays p q = find_row ns' id' rev' q.objects ≡ find_row ns' id' rev' p.objects

  move_row-Stays :
      (id : String) (rev : ℕ) (p q : Pass)
      → StrSet.has (ref_key ns id rev) protected_refs ≡ false
      → move_row ns id rev now p ≡ some q
      → Stays p q
  unfolding move_row
  move_row-Stays id rev p q loose e =
      let other : same_key ns id rev ns' id' rev' ≡ false =
        elim (Bool-cases (same_key ns id rev ns' id' rev')) [
          | inr f ↦ f
          | inl f ↦ absurd (ground (arith, f, loose, safe, eq_iff ns ns', eq_iff id id'))
        ] in
      ground (arith, e, find_row-delete_row_other ns id rev ns' id' rev' p.objects other)

  move_candidates-Stays :
      (id : String) (revs : List ℕ) (p q : Pass)
      → move_candidates protected_refs now ns id revs p ≡ some q
      → Stays p q
  unfolding move_candidates
  move_candidates-Stays id [] p q e = ground (arith, e)
  move_candidates-Stays id (rev ∷ revs) p q e =
      elim (Bool-cases (StrSet.has (ref_key ns id rev) protected_refs)) [
        | inl protected ↦
            let p' = record p { kept = p.kept + 1; protected = p.protected + 1 } in
            move_candidates-Stays id revs p' q (ground (arith, protected, e))
        | inr loose ↦ elim (Option-cases (move_row ns id rev now p)) [
          | inl throws ↦ absurd (ground (arith, loose, throws, e))
          | inr (m, f) ↦
              let m' = record m {
                moved = m.moved + 1;
                moved_targets = m.moved_targets ++ (id, rev) ∷ [];
              } in
              move_candidates-Stays id revs m' q (ground (arith, loose, f, e))
              ∙ move_row-Stays id rev p m loose f
        ]
      ]

  move_ids-Stays :
      (keep : ℕ) (by_id : Dict (List ℕ)) (p q : Pass)
      → move_ids protected_refs now ns keep by_id p ≡ some q
      → Stays p q
  unfolding move_ids
  move_ids-Stays keep [] p q e = ground (arith, e)
  move_ids-Stays keep ((id, revs) ∷ by_id) p q e =
      let hot = length revs - length (candidates keep revs) in
      let p' = record p { kept = p.kept + hot } in
      elim (Option-cases (move_candidates protected_refs now ns id (candidates keep revs) p')) [
        | inl throws ↦ absurd (ground (arith, throws, e))
        | inr (m, f) ↦
            move_ids-Stays keep by_id m q (ground (arith, f, e))
            ∙ move_candidates-Stays id (candidates keep revs) p' m f
      ]

-- A revision that the refs of any hot row name, in whatever namespace, is not moved: a compaction
-- that does not throw leaves what the hot table holds of it.
pub compact-ref_key :
    (ns : String) (keep now : ℕ) (v : Vault) (done : CompactResult × Vault) (xs ys : List ObjectRow)
    (row : ObjectRow) (rs qs : List Ref) (ref : Ref)
    → compact ns keep now v ≡ some done
    → v.objects ≡ xs ++ row ∷ ys
    → row.meta.refs ≡ rs ++ ref ∷ qs
    → find_row ref.ns ref.id ref.rev done.1.objects ≡ find_row ref.ns ref.id ref.rev v.objects
unfolding compact
compact-ref_key ns keep now v done xs ys row rs qs ref e hot named =
    let start : Pass = record {
      objects = v.objects;
      cold_objects = v.cold_objects;
      moved = 0;
      kept = 0;
      protected = 0;
      moved_targets = [];
    } in
    let refs = live_refs [] v.objects in
    let by_id = group_by_id [] (rows_of ns v.objects) in
    let safe : StrSet.has (ref_key ref.ns ref.id ref.rev) refs ≡ true =
      rw hot (live_refs_of xs ys row rs qs ref [] named) in
    elim (Option-cases (move_ids refs now ns keep by_id start)) [
      | inl throws ↦ absurd (ground (arith, throws, e))
      | inr (q, f) ↦
          let same : done.1.objects ≡ q.objects = ground (arith, f, e) in
          ap (find_row ref.ns ref.id ref.rev) same
          ∙ move_ids-Stays refs now ns ref.ns ref.id ref.rev safe keep by_id start q f
    ]
