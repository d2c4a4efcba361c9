-- ===== src/Common/Text.antt =====
-- Prefixes and suffixes of texts, by recursion on the characters.
use Prim.Native.Nat.{ℕ, compare, Ordering}
use Prim.Native.Char.{Char, code}
use Prim.Native.String.{String}
use mathlib.Core.Path.{◌≡◌, refl}
use mathlib.Core.Bool.{Bool, true, false}
use mathlib.Core.Option.{Option, none, some, some-injective}
use mathlib.Core.Option
use native.Mathlib.Omega.{arith}
use text.Mathlib.Text.{◌==◌}
use vivim_omega.Common.Tests.{if◌then◌else◌}

abbrev same_char : Char → Char → Bool
same_char c d = elim (compare (code c) (code d)) [ Ordering.eq ↦ true | _ ↦ false ]

-- a template literal of two parts
infixr 66 ◌⧺◌
unfoldable pub ◌⧺◌ : String → String → String
String.[] ⧺ t = t
(String.◌∷◌ c s) ⧺ t = String.◌∷◌ c (s ⧺ t)

-- `s.startsWith(p)` and, where it holds, `s.slice(p.length)`
unfoldable pub strip_prefix : String → String → Option String
strip_prefix String.[] s = some s
strip_prefix (String.◌∷◌ c p) String.[] = none
strip_prefix (String.◌∷◌ c p) (String.◌∷◌ d s) = if same_char c d then strip_prefix p s else none

-- `s.endsWith(e)` and, where it holds, `s.slice(0, -e.length)`
unfoldable pub strip_suffix : String → String → Option String
strip_suffix e String.[] = if e == "" then some "" else none
strip_suffix e (String.◌∷◌ c s) =
    let rest = Option.map (String.◌∷◌ c) (strip_suffix e s) in
    if e == String.◌∷◌ c s then some "" else rest

same_char_self : (c : Char) → same_char c c ≡ true
same_char_self c = ground arith

pub strip_prefix-⧺ : (p s : String) → strip_prefix p (p ⧺ s) ≡ some s
unfolding strip_prefix ◌⧺◌
strip_prefix-⧺ String.[] s = refl
strip_prefix-⧺ (String.◌∷◌ c p) s = rw (same_char_self c) (strip_prefix-⧺ p s)

pub ⧺-injective : (p s t : String) → p ⧺ s ≡ p ⧺ t → s ≡ t
⧺-injective p s t h = cc (strip_prefix-⧺ p s, strip_prefix-⧺ p t, h)

-- the text before and after the last `mark`
unfoldable pub split_last : ℕ → String → Option (String × String)
split_last mark String.[] = none
split_last mark (String.◌∷◌ c s) = elim (split_last mark s) [
  | some (a, b) ↦ some (String.◌∷◌ c a, b)
  | none ↦ elim (compare (code c) mark) [ Ordering.eq ↦ some ("", s) | _ ↦ none ]
]
