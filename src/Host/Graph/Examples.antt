-- ===== src/Host/Graph/Examples.antt =====
-- The graph of host/src/graph.ts at concrete inputs.
use vivim_omega.Common.{String, ◌≡◌, refl, Bool, true, none, some, length}
use vivim_omega.Common.Dict
use vivim_omega.Common.StrSet
use vivim_omega.Common.StrSet.{StrSet}
use vivim_omega.Host.Audit.{GrantPayload, SignedGrant}
use vivim_omega.Host.Graph.{
  principal, capability, GraphNode, CapabilityGraph, empty, upsert_node, members, who_offers,
  who_holds, link, offer, blast_radius, blast_fuel, reach, degrees, neighbours, insert, ensure,
}
use vivim_omega.Host.Graph.Blast.{IsEdge, blast_radius_lem}
use vivim_omega.Host.Graph.Index.{IsIndexed, upsert_node-IsIndexed}

abbrev everything : GrantPayload → String → Bool
everything p signature = true

abbrev plugin : GraphNode
plugin = record {
  id = "vivim.vault";
  kind = principal;
  granularity = none;
  extraction_candidate = none;
}

abbrev vault_get : GraphNode
vault_get = record {
  id = "vault.get@1";
  kind = capability;
  granularity = none;
  extraction_candidate = none;
}

empty-IsIndexed : IsIndexed everything empty
unfolding who_offers who_holds members Dict.get StrSet.has
empty-IsIndexed = record { offers = λ c t. refl; holds = λ c t. refl; provenance = tt }

abbrev nodes : CapabilityGraph
nodes = upsert_node vault_get (upsert_node plugin empty)

nodes-IsIndexed : IsIndexed everything nodes
nodes-IsIndexed =
    upsert_node-IsIndexed everything vault_get (upsert_node plugin empty)
      (upsert_node-IsIndexed everything plugin empty empty-IsIndexed)

abbrev signed : SignedGrant
signed = record {
  payload = record {
    grantor = "vivim.vault";
    to = "vivim.vault";
    capability = "vault.get@1";
    seq = 0;
    prev_hash = "";
  };
  signature = "";
}

abbrev linked : CapabilityGraph
linked = link "vivim.vault" "vault.get@1" signed offer nodes

-- the capability is the one node in reach of its offeror
one_in_reach : blast_radius "vivim.vault" linked ≡ some 1
unfolding blast_radius blast_fuel reach degrees neighbours members link insert upsert_node ensure
    Dict.get Dict.put StrSet.has StrSet.add StrSet.delete
one_in_reach = refl

blast_radius_lem_example :
    (s : StrSet) × (blast_radius "vivim.vault" linked
      ≡ some (length (StrSet.delete "vivim.vault" s)))
    × StrSet.IsDistinct s
    × (StrSet.has "vivim.vault" s ≡ true)
    × ((x y : String) → StrSet.has x s ≡ true → IsEdge linked x y → StrSet.has y s ≡ true)
    × ((Q : String → Bool)
        → Q "vivim.vault" ≡ true
        → ((x y : String) → Q x ≡ true → IsEdge linked x y → Q y ≡ true)
        → (x : String) → StrSet.has x s ≡ true
        → Q x ≡ true)
unfolding link upsert_node Dict.get Dict.put
blast_radius_lem_example = blast_radius_lem linked "vivim.vault" refl
