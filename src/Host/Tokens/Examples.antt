-- ===== src/Host/Tokens/Examples.antt =====
-- Tokens of host/src/ports.ts at concrete inputs: tokens drawn in unary, one plugin with two
-- capabilities.
use vivim_omega.Common.{
  ℕ, zero, suc, String, ◌≡◌, ◌≢◌, ◌↔◌, refl, ap, true, none, some, List, [], ◌∷◌, arith, text_ne,
}
use vivim_omega.Common.Dict
use vivim_omega.Common.Dict.{Dict}
use vivim_omega.Common.Text.{◌⧺◌, ⧺-injective, strip_prefix, strip_prefix-⧺}
use vivim_omega.Host.Port.{required_cap, is_host_op}
use vivim_omega.Host.Tokens.{
  TokenTable, effective_cap, install_token, install_tokens, check_token, check_record, add_aliases,
  mint_tokens_for, revoke,
}
use vivim_omega.Host.Tokens.Authority.{minted_authority}
use vivim_omega.Host.Tokens.Revocation.{
  TokenEvent, install, revoke_call, token_run, IsDead, scoped_revoke_lem, revoked_forever,
}

abbrev unary : ℕ → String
unary zero = ""
unary (suc n) = "|" ⧺ unary n

unary-injective : (i j : ℕ) → unary i ≡ unary j → i ≡ j
unfolding strip_prefix
unary-injective zero zero h = refl
unary-injective zero (suc j) h =
    absurd (ground (arith, ap (strip_prefix "|") h, strip_prefix-⧺ "|" (unary j)))
unary-injective (suc i) zero h =
    absurd (ground (arith, ap (strip_prefix "|") h, strip_prefix-⧺ "|" (unary i)))
unary-injective (suc i) (suc j) h =
    ap suc (unary-injective i j (⧺-injective "|" (unary i) (unary j) h))

abbrev no_tokens : TokenTable
no_tokens = record { tokens = []; generation = 0 }

abbrev law : String
law = "vivim.law"

abbrev run : String
run = "vivim.run"

abbrev caps : List String
caps = "port:vault.get@1" ∷ "host.tokens.revoke" ∷ []

abbrev booted : TokenTable
booted = install_tokens law (mint_tokens_for unary 0 caps []) no_tokens

minted_authority_example : (check_token booted law "|" "host.tokens.revoke@1" ≡ none) ↔ (
    (law ≡ law) × (required_cap "host.tokens.revoke@1" ≡ effective_cap "port:host.tokens.revoke@1"))
unfolding mint_tokens_for add_aliases Dict.get Dict.put ◌⧺◌
minted_authority_example =
    minted_authority unary unary-injective caps no_tokens (λ i. refl) law law
      "port:host.tokens.revoke@1" "|" "host.tokens.revoke@1" refl

booted_check : check_token booted law "" "vault.get@1" ≡ none
unfolding check_token check_record install_tokens install_token mint_tokens_for add_aliases Dict.get
    Dict.put ◌⧺◌ effective_cap is_host_op strip_prefix
booted_check = refl

law_ne : law ≢ ""
law_ne = text_ne law "" refl

run_ne : run ≢ law
run_ne = text_ne run law refl

scoped_revoke_lem_example :
    (check_token (revoke (some law) booted).0 law "" "vault.get@1" ≢ none)
    × (run ≢ law
        → check_token (revoke (some law) booted).0 run "" "vault.get@1"
          ≡ check_token booted run "" "vault.get@1")
    × ((revoke (some law) booted).0.generation ≡ booted.generation)
scoped_revoke_lem_example = scoped_revoke_lem booted law run "" "vault.get@1" law_ne

abbrev revoked_table : TokenTable
revoked_table = record {
  tokens =
      ("", record { plugin_id = law; cap = "port:vault.get@1"; gen = 0; is_revoked = true }) ∷ [];
  generation = 1;
}

revoked_table-IsDead : IsDead "" revoked_table
unfolding Dict.get
revoked_table-IsDead = record {
  rec = record { plugin_id = law; cap = "port:vault.get@1"; gen = 0; is_revoked = true };
  issued = refl;
  dead = refl;
}

abbrev later_events : List TokenEvent
later_events = install run (("port:vault.get@1", "") ∷ []) ∷ revoke_call (some run) ∷ []

revoked_forever_example :
    check_token (token_run revoked_table later_events) run "" "vault.get@1" ≢ none
revoked_forever_example =
    revoked_forever revoked_table later_events "" run "vault.get@1" revoked_table-IsDead
