-- ===== src/Common/Dict.antt =====
-- A JavaScript `Map` with string keys, in insertion order: `set` on a key that is there writes in
-- place, on a new key at the end. `get` of a missing key is `none` (undefined).
use Prim.Native.String.{String}
use mathlib.Core.Path.{◌≡◌, refl, subst₂}
use mathlib.Core.Bool.{Bool, false}
use mathlib.Core.Logic.{inl, inr}
use mathlib.Core.Option.{Option, none, some}
use mathlib.Core.List.{List, [], ◌∷◌}
use native.Mathlib.Omega.{arith}
use text.Mathlib.Text.{◌==◌}
use text.Mathlib.TextEquality.{eq_iff}
use text.Mathlib.TextPositions.{eq_refl}
use vivim_omega.Common.Tests.{if◌then◌else◌, is_some, Bool-cases}
use vivim_omega.Common.Lists.{All}

abbrev pub Dict {ℓ} : Type ℓ → Type ℓ
Dict V = List (String × V)

module _ {ℓ} {V : Type ℓ} where
  unfoldable pub get : String → Dict V → Option V
  get k [] = none
  get k ((j, v) ∷ m) = if j == k then some v else get k m

  unfoldable pub put : String → V → Dict V → Dict V
  put k v [] = (k, v) ∷ []
  put k v ((j, w) ∷ m) = if j == k then (j, v) ∷ m else (j, w) ∷ put k v m

  unfoldable pub delete : String → Dict V → Dict V
  delete k [] = []
  delete k ((j, v) ∷ m) = let rest = delete k m in if j == k then rest else (j, v) ∷ rest

  abbrev pub has : String → Dict V → Bool
  has k m = is_some (get k m)

  abbrev pub keys : Dict V → List String
  keys [] = []
  keys ((k, v) ∷ m) = k ∷ keys m

  abbrev pub values : Dict V → List V
  values [] = []
  values ((k, v) ∷ m) = v ∷ values m

  pub get-put :
      (k j : String) (v : V) (m : Dict V) → get j (put k v m) ≡ (if k == j then some v else get j m)
  unfolding get put
  get-put k j v [] = refl
  get-put k j v ((i, w) ∷ m) = ground (arith, eq_iff k j, eq_iff i k, eq_iff i j, get-put k j v m)

  pub get-delete :
      (k j : String) (m : Dict V) → get j (delete k m) ≡ (if k == j then none else get j m)
  unfolding get delete
  get-delete k j [] = ground arith
  get-delete k j ((i, v) ∷ m) = ground (arith, get-delete k j m, eq_iff i k, eq_iff i j, eq_iff k j)

  pub All-get {κ} :
      (P : String × V → Type κ) (k : String) {v : V} (m : Dict V)
      → All P m
      → get k m ≡ some v
      → P (k, v)
  unfolding get
  All-get P k [] h g = cc
  All-get P k {v} ((j, w) ∷ m) h g = elim (Bool-cases (j == k)) [
    | inl same ↦
        let e : w ≡ v = ground (arith, g, same) in
        subst₂ (λ a b. P (a, b)) ((eq_iff j k).0 same) e h.0
    | inr other ↦ All-get P k m h.1 (ground (arith, g, other))
  ]

pub get-nil {ℓ} : {V : Type ℓ} (k : String) → get {V = V} k [] ≡ none
unfolding get
get-nil k = refl

pub ruleset dict_laws = (get-nil, get-put, get-delete)

-- no key stands in the table twice
abbrev pub IsDistinct {ℓ} : {V : Type ℓ} → Dict V → Type 0
IsDistinct [] = Unit
IsDistinct ((k, v) ∷ m) = (has k m ≡ false) × IsDistinct m

module _ {ℓ} {V : Type ℓ} where
  pub put-IsDistinct : (k : String) (v : V) (m : Dict V) → IsDistinct m → IsDistinct (put k v m)
  unfolding get put
  put-IsDistinct k v [] d = (refl, tt)
  put-IsDistinct k v ((j, w) ∷ m) d = elim (Bool-cases (j == k)) [
    | inl same ↦ rw same d
    | inr other ↦
        let absent : has j (put k v m) ≡ false =
          ground (arith, get-put k j v m, eq_iff k j, eq_iff j k) in
        rw other (absent, put-IsDistinct k v m d.1)
  ]

  pub All-distinct {κ} :
      (P : String × V → Type κ) (m : Dict V)
      → IsDistinct m
      → ((k : String) (v : V) → get k m ≡ some v → P (k, v))
      → All P m
  unfolding get
  All-distinct P [] d h = tt
  All-distinct P ((k, v) ∷ m) d h = (
    h k v (ground (arith, eq_refl k)),
    All-distinct P m d.1 (λ j w e. h j w (ground (arith, eq_iff k j, d.0, e))),
  )
