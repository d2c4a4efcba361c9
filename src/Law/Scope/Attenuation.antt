-- ===== src/Law/Scope/Attenuation.antt =====
-- Chains of attenuations, plugins/vivim-law/src/tokens.ts.
use vivim_omega.Common.{
  ℕ, String, ◌≡◌, refl, true, Option, none, some, List, [], ◌∷◌, ◌==◌, eq_iff, eq_refl, arith, all,
  Bool-cases, Option-cases, inl, inr, ◌++◌, ◌∙◌, ap,
}
use mathlib.Core.List.{append_assoc}
use vivim_omega.Common.StrSet
use vivim_omega.Common.StrSet.{StrSet}
use vivim_omega.Law.Scope.{
  Cap, ParsedScope, parse_scope, path_prefix_of, is_subset_parsed, is_subset, mint_cap, attenuate,
}

path_prefix_of_refl : (a : List String) → path_prefix_of a a ≡ true
unfolding path_prefix_of
path_prefix_of_refl [] = refl
path_prefix_of_refl (x ∷ a) = ground (arith, eq_refl x, path_prefix_of_refl a)

path_prefix_of_trans :
    (a b c : List String)
    → path_prefix_of a b ≡ true
    → path_prefix_of b c ≡ true
    → path_prefix_of a c ≡ true
unfolding path_prefix_of
path_prefix_of_trans a b [] h k = refl
path_prefix_of_trans a [] (z ∷ c) h k = absurd (ground (arith, k))
path_prefix_of_trans [] (y ∷ b) (z ∷ c) h k = absurd (ground (arith, h))
path_prefix_of_trans (x ∷ a) (y ∷ b) (z ∷ c) h k =
    ground (arith, h, k, eq_iff y x, eq_iff z y, eq_iff z x, path_prefix_of_trans a b c)

has-all :
    (x : String) (b xs : StrSet)
    → all (λ c. StrSet.has c b) xs ≡ true
    → StrSet.has x xs ≡ true
    → StrSet.has x b ≡ true
unfolding StrSet.has
has-all x b [] h k = absurd (ground (arith, k))
has-all x b (y ∷ ys) h k = elim (Bool-cases (y == x)) [
  | inl e ↦ ground (arith, h, (eq_iff y x).0 e)
  | inr e ↦ has-all x b ys (ground (arith, h)) (ground (arith, k, e))
]

all_trans :
    (a b c : StrSet)
    → all (λ x. StrSet.has x a) b ≡ true
    → all (λ x. StrSet.has x b) c ≡ true
    → all (λ x. StrSet.has x a) c ≡ true
all_trans a b [] h k = refl
all_trans a b (x ∷ c) h k =
    ground (arith, has-all x a b h (ground (arith, k)), all_trans a b c h (ground (arith, k)))

is_subset_parsed_trans :
    (a b c : ParsedScope)
    → is_subset_parsed a b ≡ true
    → is_subset_parsed b c ≡ true
    → is_subset_parsed a c ≡ true
unfolding is_subset_parsed
is_subset_parsed_trans a b c h k = ground (
  arith,
  path_prefix_of_trans a.path b.path c.path (ground (arith, h)) (ground (arith, k)),
  all_trans a.constraints b.constraints c.constraints (ground (arith, h)) (ground (arith, k)),
)

-- A well-formed scope that is at most as broad as a second one, which is at most as broad as a third,
-- is at most as broad as the third.
is_subset_trans :
    (a b c : String)
    → is_subset a b ≡ some true
    → is_subset b c ≡ some true
    → is_subset a c ≡ some true
unfolding is_subset
is_subset_trans a b c h k = elim (Option-cases (parse_scope a)) [
  | inl e ↦ absurd (ground (arith, e, h))
  | inr (pa, ea) ↦ elim (Option-cases (parse_scope b)) [
    | inl e ↦ absurd (ground (arith, ea, e, h))
    | inr (pb, eb) ↦ elim (Option-cases (parse_scope c)) [
      | inl e ↦ absurd (ground (arith, eb, e, k))
      | inr (pc, ec) ↦ ground (
        arith,
        ea,
        eb,
        ec,
        h,
        k,
        is_subset_parsed_trans pa pb pc (ground (arith, ea, eb, h)) (ground (arith, eb, ec, k)),
      )
    ]
  ]
]

-- handles attenuated one after the other; `none` where a step throws
unfoldable pub attenuate_all : Cap → List String → Option Cap
attenuate_all cap [] = some cap
attenuate_all cap (s ∷ ss) = elim (attenuate cap s) [
  | none ↦ none
  | some child ↦ attenuate_all child ss
]

attenuate_lem :
    (cap child : Cap) (s : String)
    → attenuate cap s ≡ some child
    → (is_subset child.scope cap.scope ≡ some true) × (child.generation ≡ cap.generation)
unfolding attenuate
attenuate_lem cap child s h = ground (arith, h)

chain :
    (root : String) (generation : ℕ) (cap last : Cap) (ss : List String)
    → is_subset cap.scope root ≡ some true
    → cap.generation ≡ generation
    → attenuate_all cap ss ≡ some last
    → (is_subset last.scope root ≡ some true) × (last.generation ≡ generation)
unfolding attenuate_all
chain root generation cap last [] h g e = ground (arith, h, g, e)
chain root generation cap last (s ∷ ss) h g e = elim (Option-cases (attenuate cap s)) [
  | inl none_made ↦ absurd (ground (arith, e, none_made))
  | inr (child, made) ↦
      let (below, same) = attenuate_lem cap child s made in
      chain root generation child last ss (is_subset_trans child.scope cap.scope root below h)
        (cc (same, g)) (rw (made, attenuate_all) at e)
]

all_self :
    (xs ys : StrSet)
    → ((x : String) → StrSet.has x xs ≡ true → StrSet.has x ys ≡ true)
    → all (λ x. StrSet.has x ys) xs ≡ true
unfolding StrSet.has
all_self [] ys h = refl
all_self (x ∷ xs) ys h =
    ground (arith, h x (ground (arith, eq_refl x)), all_self xs ys (λ z e. h z (ground (arith, e))))

mint_lem :
    (scope : String) (generation : ℕ) (cap : Cap)
    → mint_cap scope generation ≡ some cap
    → (is_subset cap.scope scope ≡ some true) × (cap.generation ≡ generation)
unfolding mint_cap is_subset is_subset_parsed
mint_lem scope generation cap h = elim (Option-cases (parse_scope scope)) [
  | inl e ↦ absurd (ground (arith, e, h))
  | inr (p, e) ↦
      ground
        (arith, e, h, path_prefix_of_refl p.path, all_self p.constraints p.constraints (λ x k. k))
]

-- a use of a capability: the full path, and the clauses that hold of the use
pub record Use : Type 0 where
  pub path : List String
  pub clauses : StrSet

-- The permission of a scope: the uses at its path or below that meet each of its constraints.
pub record Permits (scope : String) (u : Use) : Type 0 where
  pub parsed : ParsedScope
  pub reads : parse_scope scope ≡ some parsed
  pub below : (rest : List String) × (u.path ≡ parsed.path ++ rest)
  pub meets : (c : String) → StrSet.has c parsed.constraints ≡ true → StrSet.has c u.clauses ≡ true

-- a prefix is what stands before the rest
path_prefix_of_rest :
    (a b : List String) → path_prefix_of a b ≡ true → (rest : List String) × (a ≡ b ++ rest)
unfolding path_prefix_of
path_prefix_of_rest a [] h = (a, refl)
path_prefix_of_rest [] (y ∷ b) h = absurd (ground (arith, h))
path_prefix_of_rest (x ∷ a) (y ∷ b) h =
    let (rest, e) = path_prefix_of_rest a b (ground (arith, h)) in
    (rest, cc ((eq_iff y x).0 (ground (arith, h)), e))

-- what a narrower scope permits, the broader one permits
Permits-is_subset : (a b : String) (u : Use) → is_subset a b ≡ some true → Permits a u → Permits b u
unfolding is_subset is_subset_parsed
Permits-is_subset a b u h p = elim (Option-cases (parse_scope b)) [
  | inl e ↦ absurd (ground (arith, p.reads, e, h))
  | inr (pb, e) ↦
      let both : is_subset_parsed p.parsed pb ≡ true = ground (arith, p.reads, e, h) in
      let (rest, at) = path_prefix_of_rest p.parsed.path pb.path (ground (arith, both)) in
      let (more, full) = p.below in
      record {
        parsed = pb;
        reads = e;
        below = (rest ++ more, full ∙ ap (λ t. t ++ more) at ∙ append_assoc pb.path rest more);
        meets = λ c k.
            p.meets c (has-all c p.parsed.constraints pb.constraints (ground (arith, both)) k);
      }
]

-- A handle that comes out of any chain of attenuations from a minted handle has a scope at most as
-- broad as the one that was minted, and the generation of the mint: each use that the handle's scope
-- permits, at its path or below and with all of its constraints met, the minted scope permits.
pub never_broader :
    (scope : String) (generation : ℕ) (root last : Cap) (ss : List String) (u : Use)
    → mint_cap scope generation ≡ some root
    → attenuate_all root ss ≡ some last
    → Permits last.scope u
    → (is_subset last.scope scope ≡ some true) × (last.generation ≡ generation) × Permits scope u
never_broader scope generation root last ss u m e p =
    let (below, same) = mint_lem scope generation root m in
    let (narrow, gen) = chain scope generation root last ss below same e in
    (narrow, gen, Permits-is_subset last.scope scope u narrow p)
