-- ===== src/Host/Tokens/Revocation.antt =====
-- The host op tokensRevoke and its effect on checkToken, host/src/ports.ts.
use vivim_omega.Common.{
  ℕ, String, ◌≡◌, ◌≢◌, refl, Bool, true, not, ◌&&◌, Option, none, some, List, [], ◌∷◌, ◌==◌, eq_iff,
  arith, if◌then◌else◌, ==_ne, Option-cases, Bool-cases, inl, inr,
}
use vivim_omega.Common.Dict
use vivim_omega.Common.Dict.{Dict, get-put}
use vivim_omega.Host.Tokens.{
  TokenRecord, TokenTable, install_token, install_tokens, check_record, check_token, revoke_where,
  revoke_all, revoke,
}

mark : (TokenRecord → Bool) → TokenRecord → TokenRecord
mark chosen rec = if chosen rec && not rec.is_revoked then record rec { is_revoked = true } else rec

abbrev marked : (TokenRecord → Bool) → Option TokenRecord → Option TokenRecord
marked chosen none = none
marked chosen (some rec) = some (mark chosen rec)

get-revoke_where :
    (chosen : TokenRecord → Bool) (token : String) (m : Dict TokenRecord)
    → Dict.get token (revoke_where chosen m).0 ≡ marked chosen (Dict.get token m)
unfolding revoke_where Dict.get mark
get-revoke_where chosen token [] = refl
get-revoke_where chosen token ((k, rec) ∷ m) = ground (arith, get-revoke_where chosen token m)

abbrev owned_by : String → TokenRecord → Bool
owned_by q rec = rec.plugin_id == q

-- the mark shows only to the plugin that owns the record
check-mark :
    (g : ℕ) (rec : TokenRecord) (p q op : String)
    → p ≢ q
    → check_record g (mark (owned_by q) rec) p op ≡ check_record g rec p op
unfolding check_record mark
check-mark g rec p q op ne = ground (arith, eq_iff rec.plugin_id q, eq_iff rec.plugin_id p)

check-marked :
    (t : TokenTable) (p q token op : String)
    → q ≢ ""
    → p ≢ q
    → check_token (revoke (some q) t).0 p token op ≡ check_token t p token op
unfolding revoke check_token
check-marked t p q token op h ne = rw (==_ne q "" h) (
    rw (get-revoke_where (owned_by q) token t.tokens, check_token)
      (elim (Option-cases (Dict.get token t.tokens)) [
        | inl e ↦ ground (arith, e)
        | inr (rec, e) ↦ ground (arith, e, check-mark t.generation rec p q op ne)
      ]))

-- After a scoped revoke of a plugin no token passes for that plugin, whatever the operation; for
-- any other plugin every check is answered as before, and the generation stays.
pub scoped_revoke_lem :
    (t : TokenTable) (q p token op : String)
    → q ≢ ""
    → (check_token (revoke (some q) t).0 q token op ≢ none)
      × (p ≢ q → check_token (revoke (some q) t).0 p token op ≡ check_token t p token op)
      × ((revoke (some q) t).0.generation ≡ t.generation)
unfolding revoke check_token mark
scoped_revoke_lem t q p token op h = (
  λ e. ground (arith, get-revoke_where (owned_by q) token t.tokens, ==_ne q "" h),
  check-marked t p q token op h,
  ground (arith, ==_ne q "" h),
)

-- After a revoke-all no token passes, for any plugin and any operation.
pub revoke_all_lem :
    (t : TokenTable) (p token op : String) → check_token (revoke none t).0 p token op ≢ none
unfolding revoke revoke_all check_token mark
revoke_all_lem t p token op e = ground (arith, get-revoke_where (λ _. true) token t.tokens)

-- what can happen to the table: a plugin's tokens are installed, or host op tokensRevoke is served
pub data TokenEvent : Type 0 where
  install : String → Dict String → TokenEvent
  revoke_call : Option String → TokenEvent

unfoldable pub token_step : TokenTable → TokenEvent → TokenTable
token_step t (install plugin_id tokens) = install_tokens plugin_id tokens t
token_step t (revoke_call plugin_id) = (revoke plugin_id t).0

unfoldable pub token_run : TokenTable → List TokenEvent → TokenTable
token_run t [] = t
token_run t (e ∷ es) = token_run (token_step t e) es

-- a token that was issued once and has been revoked
pub record IsDead (token : String) (t : TokenTable) : Type 0 where
  pub rec : TokenRecord
  pub issued : Dict.get token t.tokens ≡ some rec
  pub dead : rec.is_revoked ≡ true

install_token-IsDead :
    {token : String} (p key other : String) (t : TokenTable)
    → IsDead token t
    → IsDead token (install_token p key other t)
unfolding install_token
install_token-IsDead {token} p key other t h = record {
  rec = h.rec;
  issued = elim (Option-cases (Dict.get other t.tokens)) [
    | inl e ↦ rw e (simp get-put (ground (arith, h.issued, eq_iff other token)))
    | inr (r, e) ↦ rw e h.issued
  ];
  dead = h.dead;
}

install_tokens-IsDead :
    {token : String} (p : String) (tokens : Dict String) (t : TokenTable)
    → IsDead token t
    → IsDead token (install_tokens p tokens t)
unfolding install_tokens
install_tokens-IsDead p [] t h = h
install_tokens-IsDead p ((key, other) ∷ rest) t h =
    install_tokens-IsDead p rest (install_token p key other t)
      (install_token-IsDead p key other t h)

mark_dead :
    (chosen : TokenRecord → Bool) (rec : TokenRecord)
    → rec.is_revoked ≡ true
    → mark chosen rec ≡ rec
unfolding mark
mark_dead chosen rec h = ground arith

revoke_where-issued :
    (chosen : TokenRecord → Bool) {token : String} (t : TokenTable) (h : IsDead token t)
    → Dict.get token (revoke_where chosen t.tokens).0 ≡ some h.rec
revoke_where-issued chosen {token} t h =
    rw (get-revoke_where chosen token t.tokens) (rw h.issued (rw (mark_dead chosen h.rec h.dead)))

revoke-IsDead :
    {token : String} (q : Option String) (t : TokenTable)
    → IsDead token t
    → IsDead token (revoke q t).0
unfolding revoke revoke_all
revoke-IsDead none t h = record {
  rec = h.rec;
  issued = revoke_where-issued (λ _. true) t h;
  dead = h.dead;
}
revoke-IsDead (some q) t h = elim (Bool-cases (q == "")) [
  | inl e ↦
      rw e (record { rec = h.rec; issued = revoke_where-issued (λ _. true) t h; dead = h.dead })
  | inr e ↦
      rw e (record { rec = h.rec; issued = revoke_where-issued (owned_by q) t h; dead = h.dead })
]

token_step-IsDead :
    {token : String} (t : TokenTable) (e : TokenEvent)
    → IsDead token t
    → IsDead token (token_step t e)
unfolding token_step
token_step-IsDead t (install p tokens) h = install_tokens-IsDead p tokens t h
token_step-IsDead t (revoke_call q) h = revoke-IsDead q t h

token_run-IsDead :
    {token : String} (t : TokenTable) (es : List TokenEvent)
    → IsDead token t
    → IsDead token (token_run t es)
unfolding token_run
token_run-IsDead t [] h = h
token_run-IsDead t (e ∷ es) h = token_run-IsDead (token_step t e) es (token_step-IsDead t e h)

check-IsDead :
    (t : TokenTable) (token p op : String) → IsDead token t → check_token t p token op ≢ none
unfolding check_token check_record
check-IsDead t token p op h e = ground (arith, h.issued, h.dead)

-- Whatever is installed or revoked after it, a revoked token passes no check by any plugin for any
-- operation: it is never reissued.
pub revoked_forever :
    (t : TokenTable) (es : List TokenEvent) (token p op : String)
    → IsDead token t
    → check_token (token_run t es) p token op ≢ none
revoked_forever t es token p op h =
    check-IsDead (token_run t es) token p op (token_run-IsDead t es h)
