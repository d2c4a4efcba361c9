-- ===== src/Host/Register/Gated.antt =====
-- The declared risks of a registered manifest, host/src/ports.ts and contracts/src/manifest.ts.
use vivim_omega.Common.{
  String, ◌≡◌, ◌⊎◌, refl, Bool, true, false, not, ◌&&◌, ◌||◌, none, some, List, [], ◌∷◌, ◌==◌,
  arith, or_else, Bool-cases, Option-cases, inl, inr,
}
use vivim_omega.Common.Dict
use vivim_omega.Common.Dict.{Dict, get-put}
use vivim_omega.Host.Audit.{GrantPayload}
use vivim_omega.Host.Kernel.{Entry}
use vivim_omega.Host.Dispatch.{is_risky}
use vivim_omega.Law.Policy.{RiskClass, read, mutation, external_mutation}
use vivim_omega.Host.Register.{
  Contribution, PluginManifest, Router, risk_text, op_of, set_risks, graph_of, register_common,
  register, register_dormant,
}

abbrev pub is_mutating : Contribution → Bool
is_mutating c = elim c.risk [ none ↦ false | some read ↦ false | some risk ↦ true ]

-- the op has a risk class that is not the empty text
abbrev gates : Dict String → String → Bool
gates m op = not (or_else (Dict.get op m) "" == "")

risk_text_ne : (risk : RiskClass) → not (risk_text risk == "") ≡ true
risk_text_ne read = refl
risk_text_ne mutation = refl
risk_text_ne external_mutation = refl

put-gates :
    (k op : String) (risk : RiskClass) (m : Dict String)
    → (k == op) ≡ true
    → not (risk_text risk == "") ≡ true
    → gates (Dict.put k (risk_text risk) m) op ≡ true
put-gates k op risk m same h = rw (get-put k op (risk_text risk) m) (rw same h)

gates-put :
    (k op : String) (risk : RiskClass) (m : Dict String)
    → gates m op ≡ true
    → gates (Dict.put k (risk_text risk) m) op ≡ true
gates-put k op risk m h = elim (Bool-cases (k == op)) [
  | inl same ↦ put-gates k op risk m same (risk_text_ne risk)
  | inr other ↦ rw (get-put k op (risk_text risk) m) (rw other h)
]

gates-set_risks :
    (cs : List Contribution) (m : Dict String) (op : String)
    → gates m op ≡ true
    → gates (set_risks cs m) op ≡ true
unfolding set_risks
gates-set_risks [] m op h = h
gates-set_risks (c ∷ cs) m op h = gates-set_risks cs _ op (elim (Option-cases c.risk) [
  | inl e ↦ rw e h
  | inr (read, e) ↦ rw e h
  | inr (mutation, e) ↦ rw e (gates-put (op_of c) op mutation m h)
  | inr (external_mutation, e) ↦ rw e (gates-put (op_of c) op external_mutation m h)
])

abbrev pub declares_mutating : String → List Contribution → Bool
declares_mutating op [] = false
declares_mutating op (c ∷ cs) = (is_mutating c && op_of c == op) || declares_mutating op cs

set_risks_lem :
    (cs : List Contribution) (m : Dict String) (op : String)
    → declares_mutating op cs ≡ true
    → gates (set_risks cs m) op ≡ true
unfolding set_risks
set_risks_lem [] m op h = absurd (ground (arith, h))
set_risks_lem (c ∷ cs) m op h = elim (Bool-cases (declares_mutating op cs)) [
  | inl e ↦ set_risks_lem cs _ op e
  | inr e ↦ gates-set_risks cs _ op (elim (Option-cases c.risk) [
    | inl f ↦ absurd (ground (arith, h, e, f))
    | inr (read, f) ↦ absurd (ground (arith, h, e, f))
    | inr (mutation, f) ↦ rw f (put-gates (op_of c) op mutation m (ground (arith, h, e, f)) refl)
    | inr (external_mutation, f) ↦
        rw f (put-gates (op_of c) op external_mutation m (ground (arith, h, e, f)) refl)
  ])
]

module _ (hash sign : GrantPayload → String) (verify : GrantPayload → String → Bool) where
  common_gates :
      (entry : Entry) (manifest : PluginManifest) (tokens : Dict String) (r r' : Router)
      (op : String)
      → declares_mutating op manifest.contracts ≡ true
      → register_common hash sign verify entry manifest tokens r ≡ some r'
      → is_risky r'.host op ≡ true
  unfolding register_common
  common_gates entry manifest tokens r r' op h e =
      elim (Option-cases (graph_of hash sign verify entry manifest r.graph_seen r.host.kernel)) [
        | inl f ↦ absurd (ground (arith, e, f))
        | inr ((seen, kernel), f) ↦
            ground (arith, e, f, set_risks_lem manifest.contracts r.host.op_risk op h)
      ]

  -- After an entry is registered, started or dormant, every operation that its manifest declares with
  -- a mutating risk is risky: its calls go through the gate.
  pub declared_risk_is_gated :
      (entry : Entry) (manifest : PluginManifest) (tokens : Dict String) (r r' : Router)
      (op : String)
      → declares_mutating op manifest.contracts ≡ true
      → (register hash sign verify entry manifest tokens r ≡ some r')
        ⊎ (register_dormant hash sign verify entry manifest tokens r ≡ some r')
      → is_risky r'.host op ≡ true
  unfolding register register_dormant
  declared_risk_is_gated entry manifest tokens r r' op h started =
      elim (Option-cases (register_common hash sign verify entry manifest tokens r)) [
        | inl f ↦ absurd (ground (arith, started, f))
        | inr (r1, f) ↦ ground (arith, started, f, common_gates entry manifest tokens r r1 op h f)
      ]
