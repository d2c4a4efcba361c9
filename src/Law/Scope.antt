-- ===== src/Law/Scope.antt =====
-- The algebra of capability handles, plugins/vivim-law/src/tokens.ts (`parseScope`, `isSubset`,
-- `mintCap`, `attenuate`). A thrown error is `none`. The constraints are a set: `.sort()` fixes their
-- order for `canonicalScope` only, which is left out, and the model does not sort them.
-- `length` counts UTF-16 units, and `\s` is the white space of ECMAScript.
pub mod Attenuation
mod Examples
use Prim.Native.Nat.{compare, Ordering}
use Prim.Native.Char.{Char, code}
use vivim_omega.Common.{
  ℕ, zero, suc, ◌+◌, String, Bool, true, false, not, ◌&&◌, ◌||◌, Option, none, some, List, [], ◌∷◌,
  ◌==◌, ltb, leb, eqb, if◌then◌else◌, any, all,
}
use vivim_omega.Common.StrSet
use vivim_omega.Common.StrSet.{StrSet}
use vivim_omega.Law.Policy.{length}
use vivim_omega.Law.Forbidden.{to_set}

pub record Cap : Type 0 where
  pub scope : String
  pub generation : ℕ
  pub parent : Option String

pub record ParsedScope : Type 0 where
  pub path : List String
  pub constraints : StrSet

abbrev between : ℕ → ℕ → ℕ → Bool
between a b x = leb a x && leb x b

-- [a-zA-Z0-9_-]
unfoldable pub is_word : ℕ → Bool
is_word x = between 97 122 x || (between 65 90 x || (between 48 57 x || (eqb x 95 || eqb x 45)))

-- \s
unfoldable pub is_space : ℕ → Bool
is_space x =
    between 9 13 x
    || (eqb x 32
        || (eqb x 160
            || (eqb x 0x1680
                || (between 0x2000 0x200a x
                    || (eqb x 0x2028
                        || (eqb x 0x2029
                            || (eqb x 0x202f
                                || (eqb x 0x205f || (eqb x 0x3000 || eqb x 0xfeff)))))))))

-- the text is not empty, and `ok` holds of every character
unfoldable pub all_chars : (ℕ → Bool) → String → Bool
all_chars ok String.[] = true
all_chars ok (String.◌∷◌ c s) = ok (code c) && all_chars ok s

-- SEGMENT_RE
unfoldable pub is_segment : String → Bool
unfolding is_word all_chars
is_segment s = not (s == "") && all_chars is_word s

-- `s.split(mark)`, the first part and the others
unfoldable pub split_on : ℕ → String → String × List String
split_on mark String.[] = ("", [])
split_on mark (String.◌∷◌ c s) =
    let (first, rest) = split_on mark s in
    if eqb (code c) mark then ("", first ∷ rest) else (String.◌∷◌ c first, rest)

-- [^\s:=]
unfoldable pub is_value : ℕ → Bool
unfolding is_space
is_value x = not (is_space x || (eqb x 58 || eqb x 61))

-- CONSTRAINT_RE
unfoldable pub is_constraint : String → Bool
unfolding is_segment split_on is_value
is_constraint s =
    let (key, rest) = split_on b'=' s in
    elim rest [
      | [] ↦ false
      | value ∷ [] ↦ is_segment key && (not (value == "") && all_chars is_value value)
      | value ∷ more ∷ others ↦ false
    ]

unfoldable pub parse_scope : String → Option ParsedScope
unfolding is_constraint
parse_scope scope =
    if scope == "" || ltb 512 (length scope)
    then none
    else let (head, clauses) = split_on b':' scope in
      let (first, rest) = split_on b'.' head in
      if not (all is_segment (first ∷ rest))
      then none
      else if not (all is_constraint clauses)
      then none
      else some (record { path = first ∷ rest; constraints = to_set clauses })

-- the path `b` is a segment-prefix of `a`
unfoldable pub path_prefix_of : List String → List String → Bool
path_prefix_of a [] = true
path_prefix_of [] (y ∷ b) = false
path_prefix_of (x ∷ a) (y ∷ b) = y == x && path_prefix_of a b

unfoldable pub is_subset_parsed : ParsedScope → ParsedScope → Bool
unfolding path_prefix_of
is_subset_parsed pa pb =
    path_prefix_of pa.path pb.path && all (λ c. StrSet.has c pa.constraints) pb.constraints

-- `none` where one of the scopes is malformed
unfoldable pub is_subset : String → String → Option Bool
unfolding is_subset_parsed parse_scope
is_subset a b = elim (parse_scope a) [
  | none ↦ none
  | some pa ↦ elim (parse_scope b) [ none ↦ none | some pb ↦ some (is_subset_parsed pa pb) ]
]

unfoldable pub mint_cap : String → ℕ → Option Cap
mint_cap scope generation = elim (parse_scope scope) [
  | none ↦ none
  | some p ↦ some (record { scope = scope; generation = generation; parent = none })
]

unfoldable pub attenuate : Cap → String → Option Cap
unfolding is_subset
attenuate parent subset = elim (is_subset subset parent.scope) [
  | none ↦ none
  | some false ↦ none
  | some true ↦ some (record {
    scope = subset;
    generation = parent.generation;
    parent = if parent.scope == subset then none else some parent.scope;
  })
]
