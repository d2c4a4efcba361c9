-- ===== src/Host/Graph.antt =====
-- The capability graph, host/src/graph.ts (`CapabilityGraph`). A grant is an
-- entry of the audit log; `g.verify()` is the parameter `verify` at its payload and signature.
pub mod Index
pub mod Blast
mod Examples
use vivim_omega.Common.{
  ℕ, zero, suc, ◌+◌, String, Bool, true, false, not, Option, none, some, List, [], ◌∷◌, ◌++◌, ◌==◌,
  if◌then◌else◌, or_else, length,
}
use vivim_omega.Common.Dict
use vivim_omega.Common.Dict.{Dict}
use vivim_omega.Common.StrSet
use vivim_omega.Common.StrSet.{StrSet}
use vivim_omega.Host.Audit.{GrantPayload, SignedGrant}

pub data NodeKind : Type 0 where
  principal capability : NodeKind

pub data EdgeKind : Type 0 where
  offer hold : EdgeKind

pub data Granularity : Type 0 where
  coarse atomic : Granularity

pub record GraphNode : Type 0 where
  pub id : String
  pub kind : NodeKind
  pub granularity : Option Granularity
  pub extraction_candidate : Option Bool

pub record Edge : Type 0 where
  pub to : String
  pub capability : String
  pub kind : EdgeKind
  pub grant : SignedGrant

pub record CapabilityGraph : Type 0 where
  pub nodes : Dict GraphNode
  pub offerors : Dict StrSet
  pub holders : Dict StrSet
  pub outgoing : Dict StrSet
  pub edges : List Edge

abbrev pub empty : CapabilityGraph
empty = record { nodes = []; offerors = []; holders = []; outgoing = []; edges = [] }

pub data GraphError : Type 0 where
  unknown_principal unknown_capability unverified : GraphError

pub data GraphResult : Type 0 where
  ok : CapabilityGraph → GraphResult
  err : GraphError → GraphResult

-- `if (!m.has(id)) m.set(id, new Set())`
unfoldable pub ensure : String → Dict StrSet → Dict StrSet
ensure id m = if Dict.has id m then m else Dict.put id [] m

unfoldable pub upsert_node : GraphNode → CapabilityGraph → CapabilityGraph
unfolding ensure
upsert_node n g = record g {
  nodes = Dict.put n.id n g.nodes;
  offerors = ensure n.id g.offerors;
  holders = ensure n.id g.holders;
  outgoing = ensure n.id g.outgoing;
}

-- `m.get(id) ?? []`
unfoldable pub members : String → Dict StrSet → StrSet
members id m = or_else (Dict.get id m) []

-- `m.get(id)!.add(x)`; every node has its sets, so the key is there
unfoldable pub insert : String → String → Dict StrSet → Dict StrSet
unfolding members
insert id x m = Dict.put id (StrSet.add x (members id m)) m

abbrev pub add_offeror : EdgeKind → String → String → Dict StrSet → Dict StrSet
add_offeror offer cap_id to m = insert cap_id to m
add_offeror hold cap_id to m = m

abbrev pub add_holder : EdgeKind → String → String → Dict StrSet → Dict StrSet
add_holder offer cap_id to m = m
add_holder hold cap_id to m = insert cap_id to m

-- the part of `grant` behind its guards
unfoldable pub link : String → String → SignedGrant → EdgeKind → CapabilityGraph → CapabilityGraph
unfolding insert
link to cap_id signed kind g = record g {
  edges = g.edges ++ record { to = to; capability = cap_id; kind = kind; grant = signed } ∷ [];
  offerors = add_offeror kind cap_id to g.offerors;
  holders = add_holder kind cap_id to g.holders;
  outgoing = insert to cap_id g.outgoing;
}

unfoldable pub grant :
    (GrantPayload → String → Bool)
    → String
    → String
    → String
    → SignedGrant
    → EdgeKind
    → CapabilityGraph
    → GraphResult
grant verify grantor to cap_id signed kind g =
    if not (Dict.has grantor g.nodes)
    then err unknown_principal
    else if not (Dict.has to g.nodes)
    then err unknown_principal
    else if not (Dict.has cap_id g.nodes)
    then err unknown_capability
    else if not (verify signed.payload signed.signature)
    then err unverified
    else ok (link to cap_id signed kind g)

unfoldable pub who_offers : String → CapabilityGraph → List String
who_offers cap_id g = members cap_id g.offerors

unfoldable pub who_holds : String → CapabilityGraph → List String
who_holds cap_id g = members cap_id g.holders

unfoldable pub fan_in : String → CapabilityGraph → ℕ
fan_in id g = length (members id g.offerors) + length (members id g.holders)

-- the ends of the edges at a node, in both directions
unfoldable pub neighbours : String → CapabilityGraph → List String
unfolding members
neighbours id g = members id g.outgoing ++ members id g.offerors ++ members id g.holders

-- the loop of `blastRadius`; `none` is out of fuel
unfoldable pub reach : ℕ → CapabilityGraph → StrSet → List String → Option StrSet
unfolding neighbours StrSet.has StrSet.add
reach fuel g seen [] = some seen
reach zero g seen (next ∷ queue) = none
reach (suc fuel) g seen (next ∷ queue) = elim (StrSet.has next seen) [
  | true ↦ reach fuel g seen queue
  | false ↦ reach fuel g (StrSet.add next seen) (queue ++ neighbours next g)
]

-- the sizes of all the sets of the nodes
unfoldable pub degrees : List String → CapabilityGraph → ℕ
unfolding neighbours
degrees [] g = 0
degrees (id ∷ ids) g = length (neighbours id g) + degrees ids g

-- each round takes one id off the queue, and the ids of a node are put on it once
unfoldable pub blast_fuel : String → CapabilityGraph → ℕ
unfolding degrees neighbours
blast_fuel id g =
    length (neighbours id g)
    + degrees (Dict.keys g.outgoing ++ Dict.keys g.offerors ++ Dict.keys g.holders) g

unfoldable pub blast_radius : String → CapabilityGraph → Option ℕ
unfolding reach blast_fuel StrSet.delete
blast_radius id g =
    if not (Dict.has id g.nodes)
    then some 0
    else elim (reach (blast_fuel id g) g (id ∷ []) (neighbours id g)) [
      | none ↦ none
      | some seen ↦ some (length (StrSet.delete id seen))
    ]
