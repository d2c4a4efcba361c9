-- ===== src/Law/Scope/Examples.antt =====
-- Attenuated handles of plugins/vivim-law/src/tokens.ts at concrete inputs.
use vivim_omega.Common.{String, ◌≡◌, refl, true, none, some, List, [], ◌∷◌, arith}
use vivim_omega.Common.StrSet
use vivim_omega.Law.Forbidden.{to_set}
use vivim_omega.Law.Scope.{Cap, is_subset, mint_cap, attenuate, parse_scope, is_segment, split_on}
use vivim_omega.Law.Policy.{length}
use vivim_omega.Law.Scope.Attenuation.{Use, Permits, attenuate_all, never_broader}

abbrev root : Cap
root = record { scope = "law.consent"; generation = 1; parent = none }

abbrev narrow : Cap
narrow = record {
  scope = "law.consent.grant:op=vault.put@1:by=run";
  generation = 1;
  parent = some "law.consent.grant:op=vault.put@1";
}

abbrev scopes : List String
scopes = "law.consent.grant:op=vault.put@1" ∷ narrow.scope ∷ []

minted : mint_cap "law.consent" 1 ≡ some root
unfolding mint_cap parse_scope length is_segment split_on
minted = refl

narrowed : attenuate_all root scopes ≡ some narrow
unfolding attenuate_all attenuate length is_segment split_on to_set StrSet.add StrSet.has
narrowed = refl

-- a grant of the consent to put, by run, in some place
abbrev one_use : Use
one_use = record {
  path = "law" ∷ "consent" ∷ "grant" ∷ "once" ∷ [];
  clauses = "by=run" ∷ "at=night" ∷ "op=vault.put@1" ∷ [];
}

permitted : Permits narrow.scope one_use
unfolding parse_scope length is_segment split_on to_set StrSet.add StrSet.has
permitted = record {
  parsed = record {
    path = "law" ∷ "consent" ∷ "grant" ∷ [];
    constraints = "by=run" ∷ "op=vault.put@1" ∷ [];
  };
  reads = refl;
  below = ("once" ∷ [], refl);
  meets = λ c h. ground (arith, h);
}

never_broader_example :
    (is_subset narrow.scope "law.consent" ≡ some true)
    × (narrow.generation ≡ 1)
    × Permits "law.consent" one_use
never_broader_example =
    never_broader "law.consent" 1 root narrow scopes one_use minted narrowed permitted
