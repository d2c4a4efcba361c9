-- ===== src/Common/StrSet.antt =====
-- A JavaScript `Set` of strings, in insertion order.
use Prim.Native.Nat.{◌+◌, ◌≤◌, ◌<◌}
use Prim.Native.String.{String}
use mathlib.Core.Path.{◌≡◌, refl}
use mathlib.Core.Logic.{inl, inr}
use mathlib.Core.Bool.{Bool, true, false, ◌||◌, ◌&&◌, not}
use mathlib.Core.List.{List, [], ◌∷◌}
use native.Mathlib.Omega.{arith}
use text.Mathlib.Text.{◌==◌}
use text.Mathlib.TextEquality.{eq_iff}
use vivim_omega.Common.Tests.{if◌then◌else◌, Bool-cases}
use vivim_omega.Common.Lists.{length}

abbrev pub StrSet : Type 0
StrSet = List String

-- `xs.includes(k)` and `s.has(k)`
unfoldable pub has : String → StrSet → Bool
has k [] = false
has k (x ∷ xs) = x == k || has k xs

unfoldable pub add : String → StrSet → StrSet
add k [] = k ∷ []
add k (x ∷ xs) = if x == k then x ∷ xs else x ∷ add k xs

unfoldable pub delete : String → StrSet → StrSet
delete k [] = []
delete k (x ∷ xs) = let rest = delete k xs in if x == k then rest else x ∷ rest

pub has-add : (k j : String) (xs : StrSet) → has j (add k xs) ≡ (k == j || has j xs)
unfolding has add
has-add k j [] = ground arith
has-add k j (x ∷ xs) = ground (arith, has-add k j xs, eq_iff x k, eq_iff x j, eq_iff k j)

pub has-delete : (k j : String) (xs : StrSet) → has j (delete k xs) ≡ (not (k == j) && has j xs)
unfolding has delete
has-delete k j [] = ground arith
has-delete k j (x ∷ xs) = ground (arith, has-delete k j xs, eq_iff x k, eq_iff x j, eq_iff k j)

pub length-add-le : (k : String) (xs : StrSet) → length (add k xs) ≤ length xs + 1
unfolding add
length-add-le k [] = omega arith
length-add-le k (x ∷ xs) = ground (arith, length-add-le k xs)

pub length-delete-le : (k : String) (xs : StrSet) → length (delete k xs) ≤ length xs
unfolding delete
length-delete-le k [] = omega arith
length-delete-le k (x ∷ xs) = ground (arith, length-delete-le k xs)

-- removing a member frees at least one place
pub length-delete-lt :
    (k : String) (xs : StrSet) → has k xs ≡ true → length (delete k xs) < length xs
unfolding delete has
length-delete-lt k [] h = ground arith
length-delete-lt k (x ∷ xs) h = ground (arith, length-delete-lt k xs, length-delete-le k xs)

pub ruleset str_set_laws = (has-add, has-delete)

-- a text stands in the list once
abbrev pub IsDistinct : StrSet → Type 0
IsDistinct [] = Unit
IsDistinct (x ∷ xs) = (has x xs ≡ false) × IsDistinct xs

pub add-IsDistinct : (k : String) (xs : StrSet) → IsDistinct xs → IsDistinct (add k xs)
unfolding add has
add-IsDistinct k [] d = (refl, tt)
add-IsDistinct k (x ∷ xs) d = elim (Bool-cases (x == k)) [
  | inl same ↦ rw same d
  | inr other ↦
      rw other (
        ground (arith, d.0, other, has-add k x xs, eq_iff x k, eq_iff k x),
        add-IsDistinct k xs d.1,
      )
]
