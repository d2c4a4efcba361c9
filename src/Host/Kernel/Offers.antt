-- ===== src/Host/Kernel/Offers.antt =====
-- What registerGraph of host/src/ports.ts does to the offers of the graph.
use vivim_omega.Common.{
  String, ◌≡◌, refl, Bool, true, false, ◌&&◌, ◌||◌, Option, some, List, [], ◌∷◌, ◌==◌, eq_refl,
  arith, or_else, Bool-cases, inl, inr, ap,
}
use vivim_omega.Common.Dict
use vivim_omega.Common.Dict.{get-put}
use vivim_omega.Common.StrSet
use vivim_omega.Common.StrSet.{StrSet, has-add}
use vivim_omega.Common.Text.{strip_prefix}
use vivim_omega.Host.Audit.{GrantPayload, SignedGrant, AuditLog, record_grant}
use vivim_omega.Host.Graph.{
  CapabilityGraph, Granularity, GraphNode, principal, atomic, EdgeKind, offer, hold, upsert_node,
  link, grant, who_offers, members, ensure, insert,
}
use vivim_omega.Host.Graph.Index.{members-ensure, members-insert}
use vivim_omega.Host.Tools.{publish}
use vivim_omega.Host.Kernel.{
  Entry, Kernel, capability_node, op_parts, record_edge, offer_op, offer_ops, hold_cap, hold_caps,
  register_graph,
}

-- `t` is a routed implementation of `op`
abbrev pub offers : Kernel → String → String → Bool
offers k op t = StrSet.has t (who_offers op k.graph)

abbrev knows : Kernel → String → Bool
knows k id = Dict.has id k.graph.nodes

knows-upsert :
    (n : GraphNode) (g : CapabilityGraph) (id : String)
    → Dict.has id (upsert_node n g).nodes ≡ (n.id == id || Dict.has id g.nodes)
unfolding upsert_node
knows-upsert n g id = simp get-put (ground arith)

offers-upsert :
    (n : GraphNode) (g : CapabilityGraph) (op : String)
    → who_offers op (upsert_node n g) ≡ who_offers op g
unfolding who_offers upsert_node
offers-upsert n g op = members-ensure n.id op g.offerors

offers-link_offer :
    (to cap_id op t : String) (signed : SignedGrant) (g : CapabilityGraph)
    → StrSet.has t (who_offers op (link to cap_id signed offer g))
      ≡ ((cap_id == op && to == t) || StrSet.has t (who_offers op g))
unfolding who_offers link
offers-link_offer to cap_id op t signed g =
    rw (members-insert cap_id to op g.offerors)
      (ground (arith, has-add to t (members op g.offerors)))

offers-link_hold :
    (to cap_id op : String) (signed : SignedGrant) (g : CapabilityGraph)
    → who_offers op (link to cap_id signed hold g) ≡ who_offers op g
unfolding who_offers link
offers-link_hold to cap_id op signed g = refl

nodes-link :
    (to cap_id : String) (signed : SignedGrant) (kind : EdgeKind) (g : CapabilityGraph)
    → (link to cap_id signed kind g).nodes ≡ g.nodes
unfolding link
nodes-link to cap_id signed kind g = refl

module _ (hash sign : GrantPayload → String) (verify : GrantPayload → String → Bool)
    (verify-sign : (p : GrantPayload) → verify p (sign p) ≡ true) where
  -- what one registration step does to the graph
  record Effect (id : String) (added : String → Bool) (k k' : Kernel) : Type 0 where
    knows_id : knows k' id ≡ true
    offered : (op t : String) → offers k' op t ≡ ((added op && id == t) || offers k op t)

  grant-known :
      (id cap_id : String) (kind : EdgeKind) (log : AuditLog) (g : CapabilityGraph)
      → Dict.has id g.nodes ≡ true
      → Dict.has cap_id g.nodes ≡ true
      → let signed = (record_grant hash sign id id cap_id log).1 in
        grant verify id id cap_id signed kind g
        ≡ vivim_omega.Host.Graph.ok (link id cap_id signed kind g)
  unfolding grant record_grant
  grant-known id cap_id kind log g hi hc =
      ground (arith, hi, hc, verify-sign (record_grant hash sign id id cap_id log).1.payload)

  record_edge-some :
      (id cap_id : String) (kind : EdgeKind) (k : Kernel)
      → knows k id ≡ true
      → knows k cap_id ≡ true
      → record_edge hash sign verify id id cap_id kind k
        ≡ some (record k {
          graph = link id cap_id (record_grant hash sign id id cap_id k.audit).1 kind k.graph;
          audit = (record_grant hash sign id id cap_id k.audit).0;
        })
  unfolding record_edge
  record_edge-some id cap_id kind k hi hc = rw (grant-known id cap_id kind k.audit k.graph hi hc)

  offer_op-Effect :
      (id op : String) (k : Kernel)
      → knows k id ≡ true
      → (k' : Kernel) × (offer_op hash sign verify id op k ≡ some k')
        × Effect id (λ c. op == c) k k'
  unfolding offer_op
  offer_op-Effect id op k h =
      let g = upsert_node (capability_node op) k.graph in
      let k1 = record k { graph = g } in
      let signed = (record_grant hash sign id id op k.audit).1 in
      let known : (x : String) → Dict.has x g.nodes ≡ (op == x || knows k x) =
        knows-upsert (capability_node op) k.graph in
      (
        record {
          graph = link id op signed offer g;
          audit = (record_grant hash sign id id op k.audit).0;
          state = k.state;
          tools = publish (op_parts op).0 (op_parts op).1 id k.tools;
        },
        rw (
          record_edge-some id op offer k1 (rw (known id) (ground (arith, h)))
              (rw (known op) (ground (arith, eq_refl op))),
          offer_op,
        ),
        record {
          knows_id = rw (nodes-link id op signed offer g) (rw (known id) (ground (arith, h)));
          offered = λ c t.
              rw (offers-link_offer id op c t signed g)
                (rw (offers-upsert (capability_node op) k.graph c));
        },
      )

  offer_ops-Effect :
      (id : String) (ops : List String) (k : Kernel)
      → knows k id ≡ true
      → (k' : Kernel) × (offer_ops hash sign verify id ops k ≡ some k')
        × Effect id (λ c. StrSet.has c ops) k k'
  unfolding offer_ops StrSet.has
  offer_ops-Effect id [] k h = (k, refl, record { knows_id = h; offered = λ op t. refl })
  offer_ops-Effect id (op ∷ ops) k h =
      let (k1, e1, f1) = offer_op-Effect id op k h in
      let (k2, e2, f2) = offer_ops-Effect id ops k1 f1.knows_id in
      (
        k2,
        rw (e1, offer_ops) e2,
        record {
          knows_id = f2.knows_id;
          offered = λ c t. ground (arith, f1.offered c t, f2.offered c t);
        },
      )

  hold_cap-Effect :
      (id key : String) (k : Kernel)
      → knows k id ≡ true
      → (k' : Kernel) × (hold_cap hash sign verify id key k ≡ some k') × Effect id (λ c. false) k k'
  unfolding hold_cap
  hold_cap-Effect id key k h =
      let held = or_else (strip_prefix "port:" key) key in
      elim (Bool-cases (knows k held)) [
        | inl e ↦ (
          record {
            graph = link id held (record_grant hash sign id id held k.audit).1 hold k.graph;
            audit = (record_grant hash sign id id held k.audit).0;
            state = k.state;
            tools = k.tools;
          },
          rw e (record_edge-some id held hold k h e),
          record {
            knows_id =
                rw (nodes-link id held (record_grant hash sign id id held k.audit).1 hold k.graph)
                  h;
            offered = λ c t.
                rw (
                  offers-link_hold id held c (record_grant hash sign id id held k.audit).1 k.graph);
          },
        )
        | inr e ↦
            let g = upsert_node (capability_node held) k.graph in
            let known : (x : String) → Dict.has x g.nodes ≡ (held == x || knows k x) =
              knows-upsert (capability_node held) k.graph in
            (
              record {
                graph = link id held (record_grant hash sign id id held k.audit).1 hold g;
                audit = (record_grant hash sign id id held k.audit).0;
                state = k.state;
                tools = k.tools;
              },
              rw e (
                  record_edge-some id held hold (record k { graph = g })
                    (rw (known id) (ground (arith, h)))
                    (rw (known held) (ground (arith, eq_refl held)))),
              record {
                knows_id =
                    rw (nodes-link id held (record_grant hash sign id id held k.audit).1 hold g)
                      (rw (known id) (ground (arith, h)));
                offered = λ c t.
                    rw (offers-link_hold id held c (record_grant hash sign id id held k.audit).1 g)
                      (rw (offers-upsert (capability_node held) k.graph c));
              },
            )
      ]

  hold_caps-Effect :
      (id : String) (keys : List String) (k : Kernel)
      → knows k id ≡ true
      → (k' : Kernel) × (hold_caps hash sign verify id keys k ≡ some k')
        × Effect id (λ c. false) k k'
  unfolding hold_caps
  hold_caps-Effect id [] k h = (k, refl, record { knows_id = h; offered = λ op t. refl })
  hold_caps-Effect id (key ∷ keys) k h =
      let (k1, e1, f1) = hold_cap-Effect id key k h in
      let (k2, e2, f2) = hold_caps-Effect id keys k1 f1.knows_id in
      (
        k2,
        rw (e1, hold_caps) e2,
        record {
          knows_id = f2.knows_id;
          offered = λ c t. ground (arith, f1.offered c t, f2.offered c t);
        },
      )

  -- Registering an entry whose id is new never throws, and afterwards the entry is a routed
  -- implementation of exactly the contracts of its grant, whatever capabilities it holds: those of
  -- all other entries are as before. Registering it again changes nothing.
  pub register_graph_lem :
      (entry : Entry) (granularity : Option Granularity) (extraction : Option Bool) (seen : StrSet)
      (k : Kernel)
      → StrSet.has entry.id seen ≡ false
      → (k' : Kernel) × (register_graph hash sign verify entry granularity extraction seen k
          ≡ some (StrSet.add entry.id seen, k'))
        × ((op t : String)
            → offers k' op t ≡ ((StrSet.has op entry.contracts && entry.id == t) || offers k op t))
        × (register_graph hash sign verify entry granularity extraction
              (StrSet.add entry.id seen)
              k'
            ≡ some (StrSet.add entry.id seen, k'))
  unfolding register_graph
  register_graph_lem entry granularity extraction seen k new =
      let n : GraphNode = record {
        id = entry.id;
        kind = principal;
        granularity = some (or_else granularity atomic);
        extraction_candidate = extraction;
      } in
      let k1 = record k { graph = upsert_node n k.graph } in
      let h1 : knows k1 entry.id ≡ true =
        rw (knows-upsert n k.graph entry.id) (ground (arith, eq_refl entry.id)) in
      let (k2, e2, f2) = offer_ops-Effect entry.id entry.contracts k1 h1 in
      let (k3, e3, f3) = hold_caps-Effect entry.id entry.capabilities k2 f2.knows_id in
      (
        k3,
        rw new (rw (e2, register_graph) (rw (e3, register_graph))),
        (λ op t. ground (
          arith,
          f2.offered op t,
          f3.offered op t,
          ap (StrSet.has t) (offers-upsert n k.graph op),
        )),
        rw (has-add entry.id entry.id seen) (rw (eq_refl entry.id)),
      )
