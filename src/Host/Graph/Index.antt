-- ===== src/Host/Graph/Index.antt =====
-- The dispatch indexes and the edge list of host/src/graph.ts.
use vivim_omega.Common.{
  String, ◌≡◌, Bool, true, false, not, ◌&&◌, ◌||◌, List, [], ◌∷◌, ◌++◌, ◌==◌, eq_iff, arith,
  if◌then◌else◌, Option-cases, inl, inr, any, All, All-append,
}
use vivim_omega.Common.Dict
use vivim_omega.Common.Dict.{Dict, get-put}
use vivim_omega.Common.StrSet
use vivim_omega.Common.StrSet.{StrSet, has-add}
use vivim_omega.Host.Audit.{GrantPayload, SignedGrant}
use vivim_omega.Host.Graph.{
  EdgeKind, offer, hold, GraphNode, Edge, CapabilityGraph, ok, ensure, upsert_node, members, insert,
  link, grant, who_offers, who_holds,
}

abbrev pub is_offer : EdgeKind → Bool
is_offer offer = true
is_offer hold = false

abbrev pub is_edge : Bool → String → String → Edge → Bool
is_edge offered capability to e =
    (if offered then is_offer e.kind else not (is_offer e.kind))
    && (e.capability == capability && e.to == to)

abbrev has_edge : Bool → String → String → CapabilityGraph → Bool
has_edge offered capability to g = any (is_edge offered capability to) g.edges

-- the dispatch indexes agree with the edges; each edge is between nodes and its grant verifies
pub record IsIndexed (verify : GrantPayload → String → Bool) (g : CapabilityGraph) : Type 0 where
  pub offers :
      (capability to : String)
      → StrSet.has to (who_offers capability g) ≡ has_edge true capability to g
  pub holds :
      (capability to : String)
      → StrSet.has to (who_holds capability g) ≡ has_edge false capability to g
  pub provenance :
      All
        (λ (e : Edge).
          (Dict.has e.to g.nodes ≡ true)
          × (Dict.has e.capability g.nodes ≡ true)
          × (verify e.grant.payload e.grant.signature ≡ true))
        g.edges

pub members-ensure : (id k : String) (m : Dict StrSet) → members k (ensure id m) ≡ members k m
unfolding members ensure
members-ensure id k m = elim (Option-cases (Dict.get id m)) [
  | inl e ↦ rw e (simp get-put (ground (arith, e, eq_iff id k)))
  | inr (x, e) ↦ rw e
]

pub members-insert :
    (id x k : String) (m : Dict StrSet)
    → members k (insert id x m) ≡ (if id == k then StrSet.add x (members k m) else members k m)
unfolding members insert
members-insert id x k m = simp get-put (ground (arith, eq_iff id k))

any-snoc : (p : Edge → Bool) (es : List Edge) (e : Edge) → any p (es ++ e ∷ []) ≡ (any p es || p e)
any-snoc p [] e = ground arith
any-snoc p (f ∷ es) e = ground (arith, any-snoc p es e)

module _ (verify : GrantPayload → String → Bool) where
  abbrev IsProven : CapabilityGraph → Edge → Type 0
  IsProven g e =
      (Dict.has e.to g.nodes ≡ true)
      × (Dict.has e.capability g.nodes ≡ true)
      × (verify e.grant.payload e.grant.signature ≡ true)

  has-put :
      (id k : String) (n : GraphNode) (m : Dict GraphNode)
      → Dict.has k m ≡ true
      → Dict.has k (Dict.put id n m) ≡ true
  has-put id k n m h = simp get-put (ground (arith, h))

  IsProven-upsert :
      (n : GraphNode) (g : CapabilityGraph) (es : List Edge)
      → All (IsProven g) es
      → All (IsProven (upsert_node n g)) es
  unfolding upsert_node
  IsProven-upsert n g [] h = tt
  IsProven-upsert n g (e ∷ es) h = (
    (has-put n.id e.to n g.nodes h.0.0, has-put n.id e.capability n g.nodes h.0.1, h.0.2),
    IsProven-upsert n g es h.1,
  )

  -- Adding a node, a new one or one that is there, keeps the indexes and the provenance.
  pub upsert_node-IsIndexed :
      (n : GraphNode) (g : CapabilityGraph)
      → IsIndexed verify g
      → IsIndexed verify (upsert_node n g)
  unfolding who_offers who_holds upsert_node
  upsert_node-IsIndexed n g h = record {
    offers = λ c t. unfold upsert_node in rw (members-ensure n.id c g.offerors) (h.offers c t);
    holds = λ c t. unfold upsert_node in rw (members-ensure n.id c g.holders) (h.holds c t);
    provenance = IsProven-upsert n g g.edges h.provenance;
  }

  -- the guards of an accepted grant
  record IsAccepted (grantor to cap_id : String) (signed : SignedGrant) (g : CapabilityGraph)
      : Type 0 where
    grantor_known : Dict.has grantor g.nodes ≡ true
    to_known : Dict.has to g.nodes ≡ true
    cap_known : Dict.has cap_id g.nodes ≡ true
    verified : verify signed.payload signed.signature ≡ true

  grant-ok :
      (grantor to cap_id : String) (signed : SignedGrant) (kind : EdgeKind) (g g' : CapabilityGraph)
      → grant verify grantor to cap_id signed kind g ≡ ok g'
      → IsAccepted grantor to cap_id signed g × (g' ≡ link to cap_id signed kind g)
  unfolding grant
  grant-ok grantor to cap_id signed kind g g' e = (
    record {
      grantor_known = ground (arith, e);
      to_known = ground (arith, e);
      cap_known = ground (arith, e);
      verified = ground (arith, e);
    },
    ground (arith, e),
  )

  IsProven-link :
      (to cap_id : String) (signed : SignedGrant) (kind : EdgeKind) (g : CapabilityGraph)
      (es : List Edge)
      → All (IsProven g) es
      → All (IsProven (link to cap_id signed kind g)) es
  unfolding link
  IsProven-link to cap_id signed kind g [] h = tt
  IsProven-link to cap_id signed kind g (e ∷ es) h =
      (h.0, IsProven-link to cap_id signed kind g es h.1)

  offers-link :
      (to cap_id : String) (signed : SignedGrant) (kind : EdgeKind) (g : CapabilityGraph)
      (c t : String)
      → StrSet.has t (who_offers c g) ≡ has_edge true c t g
      → StrSet.has t (who_offers c (link to cap_id signed kind g))
        ≡ has_edge true c t (link to cap_id signed kind g)
  unfolding link who_offers
  offers-link to cap_id signed offer g c t h = rw (any-snoc (is_edge true c t) g.edges) (
      rw (members-insert cap_id to c g.offerors)
        (ground (arith, h, has-add to t (members c g.offerors))))
  offers-link to cap_id signed hold g c t h =
      rw (any-snoc (is_edge true c t) g.edges) (ground (arith, h))

  holds-link :
      (to cap_id : String) (signed : SignedGrant) (kind : EdgeKind) (g : CapabilityGraph)
      (c t : String)
      → StrSet.has t (who_holds c g) ≡ has_edge false c t g
      → StrSet.has t (who_holds c (link to cap_id signed kind g))
        ≡ has_edge false c t (link to cap_id signed kind g)
  unfolding link who_holds
  holds-link to cap_id signed offer g c t h =
      rw (any-snoc (is_edge false c t) g.edges) (ground (arith, h))
  holds-link to cap_id signed hold g c t h = rw (any-snoc (is_edge false c t) g.edges) (
      rw (members-insert cap_id to c g.holders)
        (ground (arith, h, has-add to t (members c g.holders))))

  link-IsIndexed :
      (grantor to cap_id : String) (signed : SignedGrant) (kind : EdgeKind) (g : CapabilityGraph)
      → IsAccepted grantor to cap_id signed g
      → IsIndexed verify g
      → IsIndexed verify (link to cap_id signed kind g)
  link-IsIndexed grantor to cap_id signed kind g a h = record {
    offers = λ c t. offers-link to cap_id signed kind g c t (h.offers c t);
    holds = λ c t. holds-link to cap_id signed kind g c t (h.holds c t);
    provenance =
        unfold link in
        All-append (IsProven (link to cap_id signed kind g)) g.edges
          (record { to = to; capability = cap_id; kind = kind; grant = signed } ∷ [])
          (IsProven-link to cap_id signed kind g g.edges h.provenance)
          ((a.to_known, a.cap_known, a.verified), tt);
  }

  -- A grant that is accepted keeps the two dispatch indexes equal to the edge list, and every edge
  -- between known nodes with a grant that verifies.
  pub grant-IsIndexed :
      (grantor to cap_id : String) (signed : SignedGrant) (kind : EdgeKind) (g g' : CapabilityGraph)
      → IsIndexed verify g
      → grant verify grantor to cap_id signed kind g ≡ ok g'
      → IsIndexed verify g'
  grant-IsIndexed grantor to cap_id signed kind g g' h e =
      let (a, eq) = grant-ok grantor to cap_id signed kind g g' e in
      rw eq (link-IsIndexed grantor to cap_id signed kind g a h)
