-- ===== src/Law/Forbidden/Overlay.antt =====
-- Setting what is forbidden to a principal, plugins/vivim-law/src/forbidden.ts.
use vivim_omega.Common.{
  String, ◌≡◌, ◌⊎◌, refl, true, false, ◌||◌, none, some, List, [], ◌∷◌, ◌==◌, arith, if◌then◌else◌,
  any, Bool-cases, inl, inr,
}
use vivim_omega.Common.Dict.{get-put, get-delete}
use vivim_omega.Common.StrSet
use vivim_omega.Common.StrSet.{StrSet, has-add}
use vivim_omega.Law.Forbidden.{ForbiddenTable, to_set, require_ops, store, set, is_forbidden}

has-to_set : (op : String) (ops : List String) → StrSet.has op (to_set ops) ≡ StrSet.has op ops
unfolding to_set StrSet.has
has-to_set op [] = refl
has-to_set op (x ∷ xs) = ground (arith, has-add x op (to_set xs), has-to_set op xs)

is_forbidden-store :
    (p q op : String) (list : StrSet) (t : ForbiddenTable)
    → is_forbidden q op (store p list t)
      ≡ (if p == q then StrSet.has op list else is_forbidden q op t)
unfolding is_forbidden store StrSet.has
is_forbidden-store p q op [] t = ground (arith, get-delete p q t)
is_forbidden-store p q op (x ∷ xs) t = ground (arith, get-put p q (x ∷ xs) t)

-- Setting a principal's forbidden ops fails exactly when the principal or one of the ops is the empty
-- text; otherwise exactly the listed ops are forbidden to that principal afterwards, an empty list
-- lifting them all, and nothing changes for another principal.
pub set_lem :
    (p : String) (ops : List String) (t : ForbiddenTable)
    → ((set p ops t ≡ none) × ((p == "" || any (λ o. o == "") ops) ≡ true))
      ⊎ ((t' : ForbiddenTable) × (set p ops t ≡ some t')
          × ((p == "" || any (λ o. o == "") ops) ≡ false)
          × ((q op : String)
              → is_forbidden q op t' ≡ (if p == q then StrSet.has op ops else is_forbidden q op t)))
unfolding set require_ops
set_lem p ops t = elim (Bool-cases (p == "")) [
  | inl e ↦ inl (rw e refl, rw e refl)
  | inr e ↦ elim (Bool-cases (any (λ o. o == "") ops)) [
    | inl bad ↦ inl (rw e (rw bad refl), rw e bad)
    | inr good ↦ inr (
      store p (to_set ops) t,
      rw e (rw good refl),
      rw e good,
      λ q op. rw (is_forbidden-store p q op (to_set ops) t) (rw (has-to_set op ops) refl),
    )
  ]
]
