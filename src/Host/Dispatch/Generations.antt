-- ===== src/Host/Dispatch/Generations.antt =====
-- The generation that a range selects, `resolve` of host/src/contract.ts.
use mathlib.Core.Path.{subst}
use vivim_omega.Common.{
  String, ◌≡◌, true, false, none, some, List, [], ◌∷◌, arith, or_else, Option-cases, inl, inr, ◌++◌,
  ◌∙◌, ap, All,
}
use vivim_omega.Common.Dict
use vivim_omega.Host.Tools
use vivim_omega.Host.Kernel.{Kernel}

-- the last published generation of the name whose version is in the range
pub record IsNewest (k : Kernel) (name range : String) (pin : Tools.GenerationPin) : Type 0 where
  pub older : List Tools.GenerationPin
  pub newer : List Tools.GenerationPin
  pub at : or_else (Dict.get name k.tools) [] ≡ older ++ pin ∷ newer
  pub in_range : Tools.matches_range pin.version range ≡ true
  pub last : All (λ (g : Tools.GenerationPin). Tools.matches_range g.version range ≡ false) newer

-- nothing that is not found is in the range
none_newer :
    (range : String) (gs : List Tools.GenerationPin)
    → Tools.newest range gs ≡ none
    → All (λ (g : Tools.GenerationPin). Tools.matches_range g.version range ≡ false) gs
unfolding Tools.newest
none_newer range [] e = tt
none_newer range (g ∷ gs) e = elim (Option-cases (Tools.newest range gs)) [
  | inl f ↦ (ground (arith, e, f), none_newer range gs f)
  | inr (later, f) ↦ absurd (ground (arith, e, f))
]

newest-IsNewest :
    (range : String) (gs : List Tools.GenerationPin) {pin : Tools.GenerationPin}
    → Tools.newest range gs ≡ some pin
    → (older : List Tools.GenerationPin) × (newer : List Tools.GenerationPin) × (gs
        ≡ older ++ pin ∷ newer)
      × (Tools.matches_range pin.version range ≡ true)
      × All (λ (g : Tools.GenerationPin). Tools.matches_range g.version range ≡ false) newer
unfolding Tools.newest
newest-IsNewest range [] e = cc
newest-IsNewest range (g ∷ gs) {pin} e = elim (Option-cases (Tools.newest range gs)) [
  | inr (later, f) ↦
      let same : later ≡ pin = ground (arith, e, f) in
      let (older, newer, at, fits, last) =
        newest-IsNewest range gs {pin = pin} (f ∙ ap some same) in
      (g ∷ older, newer, ap (λ t. g ∷ t) at, fits, last)
  | inl f ↦
      let fits : Tools.matches_range g.version range ≡ true = ground (arith, e, f) in
      let same : g ≡ pin = ground (arith, e, f) in
      (
        [],
        gs,
        ap (λ p. p ∷ gs) same,
        subst (λ (p : Tools.GenerationPin). Tools.matches_range p.version range ≡ true) same fits,
        none_newer range gs f,
      )
]

pub resolve-IsNewest :
    (k : Kernel) (name range : String) (pin : Tools.GenerationPin)
    → Tools.resolve name range k.tools ≡ some pin
    → IsNewest k name range pin
unfolding Tools.resolve
resolve-IsNewest k name range pin e = elim (Option-cases (Dict.get name k.tools)) [
  | inl absent ↦ absurd (ground (arith, e, absent))
  | inr (gs, there) ↦
      let (older, newer, at, fits, last) =
        newest-IsNewest range gs {pin = pin} (ground (arith, e, there)) in
      record {
        older = older;
        newer = newer;
        at = ap (λ o. or_else o []) there ∙ at;
        in_range = fits;
        last = last;
      }
]
