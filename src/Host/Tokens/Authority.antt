-- ===== src/Host/Tokens/Authority.antt =====
-- The authority of a token from mintTokensFor over installTokens to checkToken, host/src/ports.ts.
use native.Mathlib.Nat.{zero-add, add-zero, add-suc, suc-add}
use vivim_omega.Common.{
  ℕ, suc, ◌+◌, ◌≤◌, String, ◌≡◌, ◌↔◌, refl, false, Option, none, some, List, [], ◌∷◌, ◌==◌, eq_iff,
  eq_refl, arith, Bool-cases, Option-cases, inl, inr, All, get_elem?,
}
use vivim_omega.Common.Dict
use vivim_omega.Common.Dict.{Dict, get-put, All-get}
use vivim_omega.Common.Text.{◌⧺◌, strip_prefix}
use vivim_omega.Host.Port.{host_op_to_cap, required_cap}
use vivim_omega.Host.Tokens.{
  TokenRecord, TokenTable, effective_cap, install_token, install_tokens, check_record, check_token,
  add_aliases, mint_tokens_for,
}

-- the token was drawn at some `n`, and the key's effective capability is the label of `n`
abbrev Drawn : (ℕ → String) → (ℕ → String) → String × String → Type 0
Drawn fresh label e = (n : ℕ) × (e.1 ≡ fresh n) × (effective_cap e.0 ≡ label n)

-- a live record of the plugin, for the capability that the operation needs
pub record IsGranted (t : TokenTable) (p token op : String) : Type 0 where
  pub rec : TokenRecord
  pub issued : Dict.get token t.tokens ≡ some rec
  pub owner : rec.plugin_id ≡ p
  pub live : rec.is_revoked ≡ false
  pub current : t.generation ≤ rec.gen
  pub covers : rec.cap ≡ required_cap op

check-IsGranted :
    (t : TokenTable) (p token op : String)
    → IsGranted t p token op
    → check_token t p token op ≡ none
unfolding check_token check_record
check-IsGranted t p token op h = ground (
  arith,
  h.issued,
  h.live,
  h.owner,
  h.covers,
  h.current,
  eq_refl p,
  eq_refl (required_cap op),
  eq_iff h.rec.plugin_id p,
  eq_iff h.rec.cap (required_cap op),
)

IsGranted-check :
    (t : TokenTable) (p token op : String)
    → check_token t p token op ≡ none
    → IsGranted t p token op
unfolding check_token check_record
IsGranted-check t p token op h = elim (Option-cases (Dict.get token t.tokens)) [
  | inl e ↦ absurd (ground (arith, e))
  | inr (r, e) ↦ record {
    rec = r;
    issued = e;
    owner = ground (arith, e, eq_iff r.plugin_id p);
    live = ground (arith, e);
    current = ground (arith, e);
    covers = ground (arith, e, eq_iff r.cap (required_cap op));
  }
]

-- The check lets a call pass exactly where the table holds a live, current record of the calling
-- plugin for the capability that the operation needs.
pub check-iff-IsGranted :
    (t : TokenTable) (p token op : String)
    → (check_token t p token op ≡ none) ↔ IsGranted t p token op
check-iff-IsGranted t p token op = (IsGranted-check t p token op, check-IsGranted t p token op)

module _ (fresh label : ℕ → String) where
  put-Drawn :
      (k : String) (n : ℕ) (m : Dict String)
      → effective_cap k ≡ label n
      → All (Drawn fresh label) m
      → All (Drawn fresh label) (Dict.put k (fresh n) m)
  unfolding Dict.put
  put-Drawn k n [] e h = ((n, refl, e), tt)
  put-Drawn k n ((j, token) ∷ m) e h = elim (Bool-cases (j == k)) [
    | inl same ↦ rw same ((n, refl, cc ((eq_iff j k).0 same)), h.1)
    | inr other ↦ rw other (h.0, put-Drawn k n m e h.1)
  ]

  abbrev Guards : String × String → Type 0
  Guards e = (effective_cap ("port:" ⧺ e.0) ≡ e.1) × (effective_cap e.1 ≡ e.1)

  add_aliases-Drawn :
      (cap : String) (n : ℕ) (ops m : Dict String)
      → effective_cap cap ≡ label n
      → All Guards ops
      → All (Drawn fresh label) m
      → All (Drawn fresh label) (add_aliases cap (fresh n) ops m)
  unfolding add_aliases
  add_aliases-Drawn cap n [] m e g h = h
  add_aliases-Drawn cap n ((op, name) ∷ ops) m e g h = elim (Bool-cases (name == cap)) [
    | inl same ↦ rw same (
        add_aliases-Drawn cap n ops (Dict.put ("port:" ⧺ op) (fresh n) m) e g.1
          (put-Drawn ("port:" ⧺ op) n m (cc (g.0.0, g.0.1, (eq_iff name cap).0 same, e)) h))
    | inr other ↦ rw other (add_aliases-Drawn cap n ops m e g.1 h)
  ]

  table-Guards : All Guards host_op_to_cap
  unfolding effective_cap strip_prefix ◌⧺◌ Dict.get
  table-Guards = (
    (refl, refl),
    (
      (refl, refl),
      (
        (refl, refl),
        (
          (refl, refl),
          ((refl, refl), ((refl, refl), ((refl, refl), ((refl, refl), ((refl, refl), tt))))),
        ),
      ),
    ),
  )

  mint-Drawn :
      (n : ℕ) (caps : List String) (m : Dict String)
      → ((i : ℕ) (cap : String) → get_elem? caps i ≡ some cap → effective_cap cap ≡ label (n + i))
      → All (Drawn fresh label) m
      → All (Drawn fresh label) (mint_tokens_for fresh n caps m)
  unfolding mint_tokens_for
  mint-Drawn n [] m labels h = h
  mint-Drawn n (cap ∷ caps) m labels h =
      let e : effective_cap cap ≡ label n = cc (labels 0 cap refl, add-zero n) in
      mint-Drawn (suc n) caps (add_aliases cap (fresh n) host_op_to_cap (Dict.put cap (fresh n) m))
        (λ i c q. cc (labels (suc i) c q, add-suc n i, suc-add n i))
        (add_aliases-Drawn cap n host_op_to_cap (Dict.put cap (fresh n) m) e table-Guards
          (put-Drawn cap n m e h))

-- a record that was installed stays, since `installTokens` skips a token that is in the table
get-install_tokens_kept :
    (p token : String) (m : Dict String) (t : TokenTable) (r : TokenRecord)
    → Dict.get token t.tokens ≡ some r
    → Dict.get token (install_tokens p m t).tokens ≡ some r
unfolding install_tokens install_token
get-install_tokens_kept p token [] t r h = h
get-install_tokens_kept p token ((k, other) ∷ m) t r h =
    get-install_tokens_kept p token m (install_token p k other t) r
      (elim (Option-cases (Dict.get other t.tokens)) [
        | inl e ↦ rw e (simp get-put (ground (arith, h, eq_iff other token)))
        | inr (s, e) ↦ rw e h
      ])

generation-install_token :
    (p k token : String) (t : TokenTable) → (install_token p k token t).generation ≡ t.generation
unfolding install_token
generation-install_token p k token t = ground arith

generation-install_tokens :
    (p : String) (m : Dict String) (t : TokenTable)
    → (install_tokens p m t).generation ≡ t.generation
unfolding install_tokens
generation-install_tokens p [] t = refl
generation-install_tokens p ((k, other) ∷ m) t = cc (
  generation-install_tokens p m (install_token p k other t),
  generation-install_token p k other t,
)

abbrev issue : String → String → ℕ → TokenRecord
issue p guarded generation = record {
  plugin_id = p;
  cap = guarded;
  gen = generation;
  is_revoked = false;
}

get-install_token_self :
    (p k token : String) (t : TokenTable)
    → Dict.get token t.tokens ≡ none
    → Dict.get token (install_token p k token t).tokens
      ≡ some (issue p (effective_cap k) t.generation)
unfolding install_token
get-install_token_self p k token t absent = rw absent (simp (get-put, eq_refl))

get-install_token_ne :
    (p k other token : String) (t : TokenTable)
    → (other == token) ≡ false
    → Dict.get token (install_token p k other t).tokens ≡ Dict.get token t.tokens
unfolding install_token
get-install_token_ne p k other token t ne = elim (Option-cases (Dict.get other t.tokens)) [
  | inl e ↦ rw e (simp get-put (rw ne))
  | inr (s, e) ↦ rw e
]

module _ (fresh label : ℕ → String) (fresh-injective : (i j : ℕ) → fresh i ≡ fresh j → i ≡ j) where
  get-install_tokens :
      (p k : String) (n : ℕ) (m : Dict String) (t : TokenTable)
      → All (Drawn fresh label) m
      → Dict.get k m ≡ some (fresh n)
      → Dict.get (fresh n) t.tokens ≡ none
      → Dict.get (fresh n) (install_tokens p m t).tokens ≡ some (issue p (label n) t.generation)
  unfolding install_tokens Dict.get
  get-install_tokens p k n [] t h g absent = cc
  get-install_tokens p k n ((j, token) ∷ m) t h g absent =
      let t' = install_token p j token t in
      elim (Bool-cases (token == fresh n)) [
        | inl same ↦
            let e : token ≡ fresh n = (eq_iff token (fresh n)).0 same in
            let i : h.0.0 ≡ n = fresh-injective h.0.0 n (cc (h.0.1, e)) in
            get-install_tokens_kept p (fresh n) m t' (issue p (label n) t.generation)
              (cc (get-install_token_self p j token t (cc (absent, e)), e, i, h.0.2))
        | inr other ↦ cc (
          get-install_tokens p k n m t' h.1 (ground (arith, g, eq_iff token (fresh n)))
              (cc (get-install_token_ne p j token (fresh n) t other, absent)),
          generation-install_token p j token t,
        )
      ]

abbrev label_of : Option String → String
label_of none = ""
label_of (some held) = effective_cap held

-- A token minted for a plugin's capabilities and installed: a check of it passes exactly for that
-- plugin, and exactly for the operations that need the effective capability of the key it is held
-- under. The draws are pairwise different and none of them is in the table yet.
pub minted_authority :
    (fresh : ℕ → String)
    → ((i j : ℕ) → fresh i ≡ fresh j → i ≡ j)
    → (caps : List String) (t : TokenTable) → ((i : ℕ) → Dict.get (fresh i) t.tokens ≡ none)
    → (p q key token op : String) → Dict.get key (mint_tokens_for fresh 0 caps []) ≡ some token
    → (check_token (install_tokens p (mint_tokens_for fresh 0 caps []) t) q token op ≡ none)
      ↔ ((q ≡ p) × (required_cap op ≡ effective_cap key))
unfolding check_token check_record
minted_authority fresh injective caps t absent p q key token op held =
    let m = mint_tokens_for fresh 0 caps [] in
    let label = λ (i : ℕ). label_of (get_elem? caps i) in
    let drawn : All (Drawn fresh label) m =
      mint-Drawn fresh label 0 caps [] (λ i c e. cc (e, zero-add i)) tt in
    let d : Drawn fresh label (key, token) = All-get (Drawn fresh label) key m drawn held in
    let g : Dict.get token (install_tokens p m t).tokens
        ≡ some (issue p (effective_cap key) t.generation) =
      cc (
        get-install_tokens fresh label injective p key d.0 m t drawn (cc (held, d.1)) (absent d.0),
        d.1,
        d.2,
      ) in
    (
      λ h. (
        ground (arith, h, g, eq_iff p q, generation-install_tokens p m t),
        ground (
          arith,
          h,
          g,
          eq_iff (effective_cap key) (required_cap op),
          generation-install_tokens p m t,
        ),
      ),
      λ h. ground (
        arith,
        h.0,
        h.1,
        g,
        eq_refl p,
        eq_refl (required_cap op),
        generation-install_tokens p m t,
      ),
    )
