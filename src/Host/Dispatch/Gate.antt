-- ===== src/Host/Dispatch/Gate.antt =====
-- The token check and the gate of a dispatch, host/src/ports.ts.
use vivim_omega.Common.{
  String, ◌≡◌, ◌≢◌, refl, true, false, Option, none, some, ◌==◌, eq_iff, arith, Bool-cases,
  Option-cases, inl, inr,
}
use vivim_omega.Common.Dict
use vivim_omega.Common.Dict.{Dict}
use vivim_omega.Host.Port.{PortResult, ok, fail, refuse, is_host_op}
use vivim_omega.Host.Tokens.{TokenTable, check_token}
use vivim_omega.Host.Tokens.Authority.{IsGranted, check-iff-IsGranted}
use vivim_omega.Host.Dispatch.{
  LawDecision, HandleState, Host, Target, delivered, resolve_target, execute, call_law, gate,
  is_risky, dispatch, dispatch_to, compartment_call,
}

-- the law was asked, and its answer is neither deny nor require-consent
pub record IsLetThrough (h : Host) (law : PortResult LawDecision) : Type 0 where
  pub law_id : String
  pub routed : Dict.get "law.check@1" h.op_route ≡ some law_id
  pub named : law_id ≢ ""
  pub decision : LawDecision
  pub answer : law ≡ ok decision
  pub not_denied : decision.decision ≢ "deny"
  pub no_consent_needed : decision.decision ≢ "require-consent"

module _ {V : Type 0} where
  gate-delivered :
      (h later : Host) (principal : String) (t u : Target) (law : PortResult LawDecision)
      (spawned : Option (Dict HandleState))
      → gate {V = V} later principal t (call_law h law) spawned ≡ delivered u
      → IsLetThrough h law
  unfolding gate call_law
  gate-delivered h later principal t u (fail e) spawned d = absurd (ground (arith, d))
  gate-delivered h later principal t u (refuse r) spawned d = absurd (ground (arith, d))
  gate-delivered h later principal t u (ok x) spawned d =
      elim (Option-cases (Dict.get "law.check@1" h.op_route)) [
        | inl absent ↦ absurd (ground (arith, d, absent))
        | inr (law_id, routed) ↦ record {
          law_id = law_id;
          routed = routed;
          named = λ e. ground (arith, d, routed, (eq_iff law_id "").1 e);
          decision = x;
          answer = refl;
          not_denied = λ e. ground (arith, d, routed, (eq_iff x.decision "deny").1 e);
          no_consent_needed =
              λ e. ground (arith, d, routed, (eq_iff x.decision "require-consent").1 e);
        }
      ]

  execute-target :
      (h : Host) (t u : Target) (spawned : Option (Dict HandleState))
      → execute {V = V} h t spawned ≡ delivered u
      → u ≡ t
  unfolding execute
  execute-target h t u spawned d = ground (arith, d)

  gate-target :
      (later : Host) (principal : String) (t u : Target) (law : PortResult LawDecision)
      (spawned : Option (Dict HandleState))
      → gate {V = V} later principal t law spawned ≡ delivered u
      → u ≡ t
  unfolding gate
  gate-target later principal t u (fail e) spawned d = cc
  gate-target later principal t u (refuse r) spawned d = cc
  gate-target later principal t u (ok x) spawned d =
      execute-target later t u spawned (ground (arith, d))

  dispatch_to-delivered :
      (h later : Host) (principal : String) (t u : Target) (law : PortResult LawDecision)
      (spawned : Option (Dict HandleState))
      → dispatch_to {V = V} h later principal t law spawned ≡ delivered u
      → (u ≡ t) × (is_risky h t.op ≡ true → IsLetThrough h law)
  unfolding dispatch_to
  dispatch_to-delivered h later principal t u law spawned d = elim (Bool-cases (is_risky h t.op)) [
    | inl e ↦
        let d' : gate later principal t (call_law h law) spawned ≡ delivered u =
          ground (arith, d, e) in
        (
          gate-target later principal t u (call_law h law) spawned d',
          λ _. gate-delivered h later principal t u law spawned d',
        )
    | inr e ↦ (
      execute-target h t u spawned (ground (arith, d, e)),
      λ risky. absurd (ground (arith, e, risky)),
    )
  ]

  dispatch-delivered :
      (h later : Host) (principal op : String) (u : Target) (law : PortResult LawDecision)
      (spawned : Option (Dict HandleState))
      → dispatch {V = V} h later principal op law spawned ≡ delivered u
      → (resolve_target h principal op ≡ some u) × (is_risky h u.op ≡ true → IsLetThrough h law)
  unfolding dispatch
  dispatch-delivered h later principal op u law spawned d =
      elim (Option-cases (resolve_target h principal op)) [
        | inl e ↦ absurd (ground (arith, d, e))
        | inr (t, e) ↦
            let (same, passed) =
              dispatch_to-delivered h later principal t u law spawned (rw (e, dispatch) at d) in
            (cc (e, same), λ risky. passed (rw same at risky))
      ]

  -- A compartment's call that reaches an implementation carried a live token of the caller for that
  -- operation, was no host operation, went to the resolved target, and, if the operation that is
  -- delivered is risky, law.check@1 was routed and its answer was neither deny nor require-consent.
  pub no_bypass :
      (tokens : TokenTable) (h later : Host) (caller token op : String) (hosted : PortResult V)
      (law : PortResult LawDecision) (spawned : Option (Dict HandleState)) (u : Target)
      → compartment_call tokens h later caller token op hosted law spawned ≡ delivered u
      → IsGranted tokens caller token op
        × (is_host_op op ≡ false)
        × (resolve_target h caller op ≡ some u)
        × (is_risky h u.op ≡ true → IsLetThrough h law)
  unfolding compartment_call
  no_bypass tokens h later caller token op hosted law spawned u d =
      let passed : check_token tokens caller token op ≡ none = ground (arith, d) in
      let routed : is_host_op op ≡ false = ground (arith, d) in
      let (e, risk) = dispatch-delivered h later caller op u law spawned (ground (arith, d)) in
      ((check-iff-IsGranted tokens caller token op).0 passed, routed, e, risk)

  gate-shut :
      (h later later' : Host) (principal : String) (t : Target) (law : PortResult LawDecision)
      (spawned spawned' : Option (Dict HandleState))
      → ¬ IsLetThrough h law
      → gate {V = V} later principal t (call_law h law) spawned
        ≡ gate later' principal t (call_law h law) spawned'
  unfolding gate call_law
  gate-shut h later later' principal t (fail e) spawned spawned' shut = ground arith
  gate-shut h later later' principal t (refuse r) spawned spawned' shut = ground arith
  gate-shut h later later' principal t (ok x) spawned spawned' shut =
      elim (Option-cases (Dict.get "law.check@1" h.op_route)) [
        | inl absent ↦ ground (arith, absent)
        | inr (law_id, routed) ↦ elim (Bool-cases (law_id == "")) [
          | inl unnamed ↦ ground (arith, routed, unnamed)
          | inr named ↦ elim (Bool-cases (x.decision == "deny")) [
            | inl denied ↦ ground (arith, routed, named, denied)
            | inr nd ↦ elim (Bool-cases (x.decision == "require-consent")) [
              | inl wanted ↦ ground (arith, routed, named, nd, wanted)
              | inr nc ↦ absurd (
                  shut (record {
                    law_id = law_id;
                    routed = routed;
                    named = λ e. ground (arith, named, (eq_iff law_id "").1 e);
                    decision = x;
                    answer = refl;
                    not_denied = λ e. ground (arith, nd, (eq_iff x.decision "deny").1 e);
                    no_consent_needed =
                        λ e. ground (arith, nc, (eq_iff x.decision "require-consent").1 e);
                  }))
            ]
          ]
        ]
      ]

  -- A refused risky call spawns and reaches nothing: without a routed law.check@1, or when the law
  -- fails, denies or wants consent, the outcome does not depend on the lazy spawn or on the
  -- compartments, and it is an answer.
  pub refused_runs_nothing :
      (h later later' : Host) (principal : String) (t : Target) (law : PortResult LawDecision)
      (spawned spawned' : Option (Dict HandleState))
      → is_risky h t.op ≡ true
      → ¬ IsLetThrough h law
      → (dispatch_to {V = V} h later principal t law spawned
          ≡ dispatch_to h later' principal t law spawned')
        × ((u : Target) → dispatch_to {V = V} h later principal t law spawned ≢ delivered u)
  refused_runs_nothing h later later' principal t law spawned spawned' risky shut = (
    unfold dispatch_to in rw risky (gate-shut h later later' principal t law spawned spawned' shut),
    λ u d. shut ((dispatch_to-delivered h later principal t u law spawned d).1 risky),
  )
