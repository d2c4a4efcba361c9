-- ===== src/Host/Kernel.antt =====
-- The kernel that the router carries: the closed bootstrap of host/src/genesis.ts, and
-- `registerGraph` of host/src/ports.ts, which turns the grants of a recipe entry into signed edges
-- and published generations.
pub mod Offers
mod Examples
use vivim_omega.Common.{
  String, Bool, true, false, Option, none, some, List, [], ◌∷◌, ◌++◌, ◌==◌, if◌then◌else◌, or_else,
}
use vivim_omega.Common.Dict
use vivim_omega.Common.StrSet
use vivim_omega.Common.StrSet.{StrSet}
use vivim_omega.Common.Text.{strip_prefix, split_last}
use vivim_omega.Host.Audit.{GrantPayload, SignedGrant, AuditLog, record_grant}
use vivim_omega.Host.Graph
use vivim_omega.Host.Graph.{
  CapabilityGraph, Granularity, atomic, GraphResult, GraphNode, principal, capability, EdgeKind,
  offer, hold, upsert_node, grant,
}
use vivim_omega.Host.Tools.{ToolRegistry, publish}
use vivim_omega.Host.Arbiter.{StateArbitrator}

-- the fields of a `CompositionEntry` that the router reads
pub record Entry : Type 0 where
  pub id : String
  pub capabilities : List String
  pub contracts : List String

pub record Kernel : Type 0 where
  pub graph : CapabilityGraph
  pub audit : AuditLog
  pub state : StateArbitrator
  pub tools : ToolRegistry

-- `op.lastIndexOf("@")` with `at > 0`
unfoldable pub op_parts : String → String × String
op_parts op = elim (split_last b'@' op) [
  | none ↦ (op, "1")
  | some (name, version) ↦ if name == "" then (op, "1") else (name, version)
]

-- "echo.ping@1" → "echo.ping"
abbrev pub op_name : String → String
op_name op = (op_parts op).0

-- `none` where an error was thrown
abbrev accept : GraphResult → (CapabilityGraph → Kernel) → Option Kernel
accept (Graph.ok g) f = some (f g)
accept (Graph.err e) f = none

abbrev pub capability_node : String → GraphNode
capability_node id = record {
  id = id;
  kind = capability;
  granularity = none;
  extraction_candidate = none;
}

abbrev pub schema_id : String
schema_id = "genesis:schema"

abbrev pub kernel_id : String
kernel_id = "genesis:kernel"

abbrev pub everyone_id : String
everyone_id = "genesis:everyone"

abbrev pub state_arbitrator_id : String
state_arbitrator_id = "core:state-arbitrator"

abbrev pub self_describe : String
self_describe = "cap:self-describe"

unfoldable pub genesis_nodes : CapabilityGraph
unfolding upsert_node
genesis_nodes = upsert_node (capability_node self_describe) (
    upsert_node
      (record {
        id = state_arbitrator_id;
        kind = principal;
        granularity = some atomic;
        extraction_candidate = some false;
      })
      (upsert_node
        (record {
          id = everyone_id;
          kind = principal;
          granularity = none;
          extraction_candidate = none;
        })
        (upsert_node
          (record {
            id = kernel_id;
            kind = principal;
            granularity = some atomic;
            extraction_candidate = none;
          })
          (upsert_node (capability_node schema_id) Graph.empty))))

module _ (hash sign : GrantPayload → String) (verify : GrantPayload → String → Bool) where
  -- `k.graph.grant(from, to, cap, k.audit.record(from, to, cap), kind)`
  unfoldable pub record_edge : String → String → String → EdgeKind → Kernel → Option Kernel
  record_edge grantor to cap_id kind k =
      let (log, signed) = record_grant hash sign grantor to cap_id k.audit in
      accept (grant verify grantor to cap_id signed kind k.graph)
        (λ g. record k { graph = g; audit = log })

  -- one round of the loop over `grant.contracts`
  unfoldable pub offer_op : String → String → Kernel → Option Kernel
  unfolding record_edge
  offer_op id op k =
      elim (record_edge id id op offer
        (record k { graph = upsert_node (capability_node op) k.graph })) [
          | none ↦ none
          | some k' ↦
              some (record k' { tools = publish (op_parts op).0 (op_parts op).1 id k'.tools })
        ]

  unfoldable pub offer_ops : String → List String → Kernel → Option Kernel
  offer_ops id [] k = some k
  offer_ops id (op ∷ ops) k = elim (offer_op id op k) [
    | none ↦ none
    | some k' ↦ offer_ops id ops k'
  ]

  -- one round of the loop over `grant.capabilities`
  unfoldable pub hold_cap : String → String → Kernel → Option Kernel
  unfolding record_edge
  hold_cap id key k =
      let held = or_else (strip_prefix "port:" key) key in
      record_edge id id held hold (
        if Dict.has held k.graph.nodes
        then k
        else record k { graph = upsert_node (capability_node held) k.graph })

  unfoldable pub hold_caps : String → List String → Kernel → Option Kernel
  hold_caps id [] k = some k
  hold_caps id (key ∷ keys) k = elim (hold_cap id key k) [
    | none ↦ none
    | some k' ↦ hold_caps id keys k'
  ]

  -- the ids whose grants are in the graph already, `graphSeen`, and the kernel after it
  unfoldable pub register_graph :
      Entry → Option Granularity → Option Bool → StrSet → Kernel → Option (StrSet × Kernel)
  unfolding offer_ops hold_caps
  register_graph entry granularity extraction seen k =
      if StrSet.has entry.id seen
      then some (seen, k)
      else let k1 = record k {
        graph =
            upsert_node
              (record {
                id = entry.id;
                kind = principal;
                granularity = some (or_else granularity atomic);
                extraction_candidate = extraction;
              })
              k.graph;
      } in
        elim (offer_ops entry.id entry.contracts k1) [
          | none ↦ none
          | some k2 ↦ elim (hold_caps entry.id entry.capabilities k2) [
            | none ↦ none
            | some k3 ↦ some (StrSet.add entry.id seen, k3)
          ]
        ]

  -- `bootstrapKernel`: five fixed nodes and the two closing grants
  unfoldable pub bootstrap_kernel : Option Kernel
  unfolding record_edge
  bootstrap_kernel =
      let k0 : Kernel = record { graph = genesis_nodes; audit = []; state = []; tools = [] } in
      elim (record_edge kernel_id kernel_id self_describe hold k0) [
        | none ↦ none
        | some k1 ↦ record_edge kernel_id schema_id self_describe hold k1
      ]
