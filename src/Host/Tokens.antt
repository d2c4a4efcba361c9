-- ===== src/Host/Tokens.antt =====
-- Capability tokens, host/src/ports.ts: the table, `mintTokensFor`, `installTokens`, `checkToken`
-- and the revocation of host op tokensRevoke. `mintToken` draws random bytes: its results are the
-- parameter `fresh`, the n-th one drawn.
pub mod Authority
pub mod Revocation
mod Examples
use vivim_omega.Common.{
  ℕ, zero, suc, ◌+◌, String, ◌≡◌, refl, Bool, true, false, not, ◌&&◌, Option, none, some, List, [],
  ◌∷◌, ◌==◌, ltb, if◌then◌else◌, or_else, is_some,
}
use vivim_omega.Common.Dict
use vivim_omega.Common.Dict.{Dict}
use vivim_omega.Common.Text.{◌⧺◌, strip_prefix}
use vivim_omega.Host.Port.{
  PortError, refused, revoked, scope, host_op_to_cap, is_host_op, host_cap_for,
}

pub record TokenRecord : Type 0 where
  pub plugin_id : String
  pub cap : String
  pub gen : ℕ
  pub is_revoked : Bool

-- the router's fields `tokens` and `generation`
pub record TokenTable : Type 0 where
  pub tokens : Dict TokenRecord
  pub generation : ℕ

-- Alias keys resolve to the guarding capability. A key is no name that every object has
-- ("constructor").
unfoldable pub effective_cap : String → String
effective_cap key = elim (strip_prefix "port:" key) [
  | none ↦ key
  | some op ↦ or_else (Dict.get op host_op_to_cap) key
]

-- one round of the loop of `installTokens`
unfoldable pub install_token : String → String → String → TokenTable → TokenTable
install_token plugin_id key token t = if Dict.has token t.tokens then t else record t {
  tokens =
      Dict.put token
        (record {
          plugin_id = plugin_id;
          cap = effective_cap key;
          gen = t.generation;
          is_revoked = false;
        })
        t.tokens;
}

unfoldable pub install_tokens : String → Dict String → TokenTable → TokenTable
install_tokens plugin_id [] t = t
install_tokens plugin_id ((key, token) ∷ rest) t =
    install_tokens plugin_id rest (install_token plugin_id key token t)

-- the inner loop of `mintTokensFor`: the host ops that `cap` guards get its token
unfoldable pub add_aliases : String → String → Dict String → Dict String → Dict String
add_aliases cap token [] tokens = tokens
add_aliases cap token ((op, cap_name) ∷ rest) tokens =
    add_aliases cap token rest
      (if cap_name == cap then Dict.put ("port:" ⧺ op) token tokens else tokens)

unfoldable pub mint_tokens_for : (ℕ → String) → ℕ → List String → Dict String → Dict String
mint_tokens_for fresh n [] tokens = tokens
mint_tokens_for fresh n (cap ∷ caps) tokens =
    mint_tokens_for fresh (suc n) caps
      (add_aliases cap (fresh n) host_op_to_cap (Dict.put cap (fresh n) tokens))

-- `none` lets the call pass
unfoldable pub check_record : ℕ → TokenRecord → String → String → Option PortError
check_record generation rec plugin_id op =
    if not (rec.plugin_id == plugin_id)
    then some refused
    else if rec.is_revoked
    then some revoked
    else if ltb rec.gen generation
    then some revoked
    else if is_host_op op
    then (if not (rec.cap == host_cap_for op) then some scope else none)
    else if not (rec.cap == "port:" ⧺ op)
    then some scope
    else none

unfoldable pub check_token : TokenTable → String → String → String → Option PortError
unfolding check_record
check_token t plugin_id token op = elim (Dict.get token t.tokens) [
  | none ↦ some refused
  | some rec ↦ check_record t.generation rec plugin_id op
]

-- `for (const rec of this.tokens.values()) if (… && !rec.revoked) { rec.revoked = true; affected++ }`
unfoldable pub revoke_where : (TokenRecord → Bool) → Dict TokenRecord → Dict TokenRecord × ℕ
revoke_where chosen [] = ([], 0)
revoke_where chosen ((token, rec) ∷ rest) =
    let (rest', affected) = revoke_where chosen rest in
    if chosen rec && not rec.is_revoked
    then ((token, record rec { is_revoked = true }) ∷ rest', suc affected)
    else ((token, rec) ∷ rest', affected)

-- host op tokensRevoke: an absent or empty `pluginId` revokes all and bumps the generation
unfoldable pub revoke_all : TokenTable → TokenTable × ℕ
revoke_all t =
    let (tokens, affected) = revoke_where (λ _. true) t.tokens in
    (record { tokens = tokens; generation = t.generation + 1 }, affected)

unfoldable pub revoke : Option String → TokenTable → TokenTable × ℕ
unfolding revoke_all
revoke none t = revoke_all t
revoke (some plugin_id) t =
    if plugin_id == ""
    then revoke_all t
    else let (tokens, affected) = revoke_where (λ rec. rec.plugin_id == plugin_id) t.tokens in
      (record t { tokens = tokens }, affected)
