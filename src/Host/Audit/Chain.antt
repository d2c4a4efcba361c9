-- ===== src/Host/Audit/Chain.antt =====
-- The hash chain of host/src/audit.ts.
use native.Mathlib.Decide.{ℕ_discrete}
use vivim_omega.Common.{
  String, ◌≡◌, ◌≢◌, refl, Bool, true, ◌⊎◌, List, [], ◌∷◌, ◌++◌, ◌==◌, eq_iff, eq_refl, arith,
  Bool-cases, inl, inr, length,
}
use vivim_omega.Host.Audit.{
  GrantPayload, SignedGrant, AuditLog, genesis_prev, head_hash, record_grant, verify_from,
  verify_chain,
}

-- one request to record a grant: from, to, capability
abbrev pub Request : Type 0
Request = String × String × String

abbrev pub payloads : AuditLog → List GrantPayload
payloads [] = []
payloads (e ∷ es) = e.payload ∷ payloads es

module _ (hash : GrantPayload → String) where
  unfoldable pub record_all : (GrantPayload → String) → List Request → AuditLog → AuditLog
  record_all sign [] log = log
  record_all sign ((grantor, to, capability) ∷ rs) log =
      record_all sign rs (record_grant hash sign grantor to capability log).0

  -- the digest that the chain expects next, from `start`
  abbrev end_hash : String → AuditLog → String
  end_hash start [] = start
  end_hash start (e ∷ es) = end_hash (hash e.payload) es

  head-end :
      (e : SignedGrant) (es : AuditLog) (start : String)
      → head_hash hash (e ∷ es) ≡ end_hash start (e ∷ es)
  unfolding head_hash
  head-end e [] start = refl
  head-end e (f ∷ es) start = head-end f es (hash e.payload)

  head-end_genesis : (es : AuditLog) → head_hash hash es ≡ end_hash genesis_prev es
  head-end_genesis [] = unfold head_hash in refl
  head-end_genesis (e ∷ es) = head-end e es genesis_prev

  module _ (sign : GrantPayload → String) (verify : GrantPayload → String → Bool)
      (verify-sign : (p : GrantPayload) → verify p (sign p) ≡ true) where
    verify-snoc :
        (es : AuditLog) (start : String) (p : GrantPayload)
        → verify_from hash verify start es ≡ true
        → p.prev_hash ≡ end_hash start es
        → verify_from hash verify start (es ++ record { payload = p; signature = sign p } ∷ [])
          ≡ true
    unfolding verify_from
    verify-snoc [] start p h e = ground (arith, e, verify-sign p, eq_refl start)
    verify-snoc (f ∷ es) start p h e = ground (arith, verify-snoc es (hash f.payload) p, h, e)

    verify-record :
        (log : AuditLog) (grantor to capability : String)
        → verify_chain hash verify log ≡ true
        → verify_chain hash verify (record_grant hash sign grantor to capability log).0 ≡ true
    unfolding verify_chain record_grant
    verify-record log grantor to capability h =
        verify-snoc log genesis_prev _ h (head-end_genesis log)

    -- A log that was built by recording grants, any number of them, passes `verifyChain`.
    pub verify-record_all :
        (rs : List Request) (log : AuditLog)
        → verify_chain hash verify log ≡ true
        → verify_chain hash verify (record_all sign rs log) ≡ true
    unfolding record_all
    verify-record_all [] log h = h
    verify-record_all ((grantor, to, capability) ∷ rs) log h =
        verify-record_all rs (record_grant hash sign grantor to capability log).0
          (verify-record log grantor to capability h)

String-discrete : Discrete String
String-discrete s t = elim (Bool-cases (s == t)) [
  | inl e ↦ yes ((eq_iff s t).0 e)
  | inr e ↦ no (λ p. ground (arith, e, (eq_iff s t).1 p))
]

GrantPayload-discrete : Discrete GrantPayload
GrantPayload-discrete = hlevel (String-discrete, ℕ_discrete)

-- two different payloads with one digest
abbrev pub Collision : (GrantPayload → String) → Type 0
Collision hash = (p : GrantPayload) × (q : GrantPayload) × (p ≢ q) × (hash p ≡ hash q)

module _ (hash : GrantPayload → String) (verify : GrantPayload → String → Bool) where
  verify_from-prev :
      (e : SignedGrant) (es : AuditLog) (start : String)
      → verify_from hash verify start (e ∷ es) ≡ true
      → (e.payload.prev_hash ≡ start) × (verify_from hash verify (hash e.payload) es ≡ true)
  unfolding verify_from
  verify_from-prev e es start h =
      (ground (arith, h, eq_iff e.payload.prev_hash start), ground (arith, h))

  same_payloads :
      (a b : AuditLog) (s t : String)
      → length a ≡ length b
      → verify_from hash verify s a ≡ true
      → verify_from hash verify t b ≡ true
      → end_hash hash s a ≡ end_hash hash t b
      → ((payloads a ≡ payloads b) × (s ≡ t)) ⊎ Collision hash
  same_payloads [] [] s t n va vb h = inl (refl, h)
  same_payloads [] (f ∷ b) s t n va vb h = absurd (omega arith)
  same_payloads (e ∷ a) [] s t n va vb h = absurd (omega arith)
  same_payloads (e ∷ a) (f ∷ b) s t n va vb h =
      let (pe, ra) = verify_from-prev e a s va in
      let (pf, rb) = verify_from-prev f b t vb in
      elim (same_payloads a b (hash e.payload) (hash f.payload) (omega arith) ra rb h) [
        | inr collision ↦ inr collision
        | inl same ↦ elim (GrantPayload-discrete e.payload f.payload) [
          | yes p ↦ inl (cc (p, same.0), cc (p, pe, pf))
          | no ne ↦ inr (e.payload, f.payload, ne, same.1)
        ]
      ]

  -- Two logs of one length that both pass `verifyChain` and have the same head digest record the
  -- same payloads in the same order, or else they exhibit two payloads with one digest.
  pub head_commits :
      (a b : AuditLog)
      → length a ≡ length b
      → verify_chain hash verify a ≡ true
      → verify_chain hash verify b ≡ true
      → head_hash hash a ≡ head_hash hash b
      → (payloads a ≡ payloads b) ⊎ Collision hash
  unfolding verify_chain
  head_commits a b n va vb h =
      elim (same_payloads a b genesis_prev genesis_prev n va vb
        (cc (head-end_genesis hash a, head-end_genesis hash b, h))) [
          | inl same ↦ inl same.0
          | inr collision ↦ inr collision
        ]
