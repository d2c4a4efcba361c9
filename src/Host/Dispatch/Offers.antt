-- ===== src/Host/Dispatch/Offers.antt =====
-- The implementations with a signed offer, as the dispatch index of host/src/graph.ts has them.
use vivim_omega.Common.{
  String, ◌≡◌, refl, true, List, [], ◌∷◌, eq_refl, arith, Bool-cases, inl, inr, Bool, ◌++◌, ◌∙◌, ap,
  sym, any, All, All-map, eq_iff,
}
use vivim_omega.Common.StrSet
use vivim_omega.Host.Audit.{GrantPayload}
use vivim_omega.Host.Graph.{who_offers, Edge, EdgeKind, offer, hold}
use vivim_omega.Host.Graph.Index.{IsIndexed, is_edge, is_offer}
use vivim_omega.Host.Kernel.{Kernel}

-- an edge of the graph by which `impl` offers `op`, with a grant whose signature verifies
pub record IsOffered (verify : GrantPayload → String → Bool) (k : Kernel) (op impl : String)
    : Type 0 where
  pub edge : Edge
  pub before : List Edge
  pub after : List Edge
  pub stands : k.graph.edges ≡ before ++ edge ∷ after
  pub offers : edge.kind ≡ offer
  pub capability : edge.capability ≡ op
  pub to : edge.to ≡ impl
  pub signed : verify edge.grant.payload edge.grant.signature ≡ true

offer_kind : (kind : EdgeKind) → is_offer kind ≡ true → kind ≡ offer
offer_kind offer h = refl
offer_kind hold h = absurd (ground (arith, h))

-- an edge that the test finds
offer_edge :
    (verify : GrantPayload → String → Bool) (op impl : String) (es : List Edge)
    → any (is_edge true op impl) es ≡ true
    → All (λ (e : Edge). verify e.grant.payload e.grant.signature ≡ true) es
    → (e : Edge) × (before : List Edge) × (after : List Edge) × (es ≡ before ++ e ∷ after)
      × (e.kind ≡ offer)
      × (e.capability ≡ op)
      × (e.to ≡ impl)
      × (verify e.grant.payload e.grant.signature ≡ true)
offer_edge verify op impl [] h signed = absurd (ground (arith, h))
offer_edge verify op impl (e ∷ es) h signed = elim (Bool-cases (is_edge true op impl e)) [
  | inl here ↦ (
    e,
    [],
    es,
    refl,
    offer_kind e.kind (ground (arith, here)),
    ground (arith, here, eq_iff e.capability op),
    ground (arith, here, eq_iff e.to impl),
    signed.0,
  )
  | inr away ↦
      let (f, before, after, at, kind, capability, to, ok) =
        offer_edge verify op impl es (ground (arith, h, away)) signed.1 in
      (f, e ∷ before, after, ap (λ t. e ∷ t) at, kind, capability, to, ok)
]

pub IsOffered-has :
    (verify : GrantPayload → String → Bool) (k : Kernel) (op impl : String)
    → IsIndexed verify k.graph
    → StrSet.has impl (who_offers op k.graph) ≡ true
    → IsOffered verify k op impl
IsOffered-has verify k op impl indexed h =
    let signed = All-map (λ (e : Edge) p. p.2) k.graph.edges indexed.provenance in
    let (e, before, after, at, is_offer, capability, to, ok) =
      offer_edge verify op impl k.graph.edges (sym (indexed.offers op impl) ∙ h) signed in
    record {
      edge = e;
      before = before;
      after = after;
      stands = at;
      offers = is_offer;
      capability = capability;
      to = to;
      signed = ok;
    }

any-at :
    (p : Edge → Bool) (before after : List Edge) (e : Edge)
    → p e ≡ true
    → any p (before ++ e ∷ after) ≡ true
any-at p [] after e h = ground (arith, h)
any-at p (f ∷ before) after e h = ground (arith, any-at p before after e h)

-- a signed offer is in the dispatch index
pub has-IsOffered :
    (verify : GrantPayload → String → Bool) (k : Kernel) (op impl : String)
    → IsIndexed verify k.graph
    → IsOffered verify k op impl
    → StrSet.has impl (who_offers op k.graph) ≡ true
has-IsOffered verify k op impl indexed o =
    let found : is_edge true op impl o.edge ≡ true =
      rw o.offers (rw o.capability (rw o.to (ground (arith, eq_refl op, eq_refl impl)))) in
    indexed.offers op impl
    ∙ rw o.stands (any-at (is_edge true op impl) o.before o.after o.edge found)
