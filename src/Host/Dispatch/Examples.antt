-- ===== src/Host/Dispatch/Examples.antt =====
-- Dispatches of host/src/ports.ts at concrete inputs: a plugin that calls a mutating operation of the
-- vault.
use vivim_omega.Common.{Bool, String, ◌≡◌, ◌≢◌, refl, true, false, none, some, [], ◌∷◌, arith}
use vivim_omega.Common.Dict
use vivim_omega.Common.Dict.{Dict}
use vivim_omega.Common.StrSet
use vivim_omega.Common.Text.{◌⧺◌, strip_prefix, strip_suffix, split_last}
use vivim_omega.Host.Port.{ok, fail, degraded, is_host_op}
use vivim_omega.Host.Tokens.{TokenTable, check_token, check_record}
use vivim_omega.Host.Tokens.Authority.{IsGranted}
use vivim_omega.Host.Graph
use vivim_omega.Host.Tools
use vivim_omega.Host.Audit.{GrantPayload, SignedGrant}
use vivim_omega.Host.Graph.{CapabilityGraph, GraphNode, who_offers, who_holds, members}
use vivim_omega.Host.Graph.Index.{IsIndexed, upsert_node-IsIndexed, grant-IsIndexed}
use vivim_omega.Host.Kernel.{Kernel, op_parts}
use vivim_omega.Host.Dispatch.{
  LawDecision, active, Host, Target, delivered, resolve_target, dispatch, dispatch_to, execute,
  call_law, gate, is_risky, compartment_call, caller_range, choose, range_in,
}
use vivim_omega.Host.Dispatch.Gate.{IsLetThrough, no_bypass, refused_runs_nothing}
use vivim_omega.Host.Dispatch.Targets.{IsSigned, resolve_target_lem}
use vivim_omega.Host.Dispatch.Offers.{IsOffered}

abbrev run : String
run = "vivim.run"

abbrev put_op : String
put_op = "vault.put@1"

abbrev host : Host
host = record {
  op_route = (put_op, "vivim.vault") ∷ ("law.check@1", "vivim.law") ∷ [];
  op_risk = (put_op, "mutation") ∷ [];
  dependencies = [];
  kernel = none;
  compartments = ("vivim.vault", active) ∷ [];
  dormant = [];
}

abbrev tokens : TokenTable
tokens = record {
  tokens =
      ("t", record { plugin_id = run; cap = "port:vault.put@1"; gen = 0; is_revoked = false }) ∷ [];
  generation = 0;
}

abbrev allowed : LawDecision
allowed = record { decision = "allow"; consent_id = none }

abbrev vault_put : Target
vault_put = record { impl = "vivim.vault"; op = put_op }

no_bypass_example :
    IsGranted tokens run "t" put_op
    × (is_host_op put_op ≡ false)
    × (resolve_target host run put_op ≡ some vault_put)
    × (is_risky host put_op ≡ true → IsLetThrough host (ok allowed))
unfolding compartment_call check_token check_record dispatch resolve_target dispatch_to gate
    call_law execute is_host_op Dict.get StrSet.has ◌⧺◌
no_bypass_example =
    no_bypass {V = String} tokens host host run "t" put_op (fail degraded) (ok allowed) none
      vault_put refl

law_is_down : ¬ IsLetThrough host (fail degraded)
law_is_down h = ground (arith, h.answer)

refused_runs_nothing_example :
    (dispatch_to {V = String} host host run vault_put (fail degraded) none
      ≡ dispatch_to host host run vault_put (fail degraded) (some []))
    × ((u : Target)
        → dispatch_to {V = String} host host run vault_put (fail degraded) none ≢ delivered u)
unfolding Dict.get
refused_runs_nothing_example =
    refused_runs_nothing {V = String} host host host run vault_put (fail degraded) none (some [])
      refl law_is_down

abbrev everything : GrantPayload → String → Bool
everything p signature = true

abbrev granted : SignedGrant
granted = record {
  payload = record {
    grantor = "vivim.vault";
    to = "vivim.vault";
    capability = put_op;
    seq = 0;
    prev_hash = "";
  };
  signature = "";
}

abbrev plugin_node : GraphNode
plugin_node = record {
  id = "vivim.vault";
  kind = Graph.principal;
  granularity = none;
  extraction_candidate = none;
}

abbrev op_node : GraphNode
op_node = record {
  id = put_op;
  kind = Graph.capability;
  granularity = none;
  extraction_candidate = none;
}

abbrev ungranted : CapabilityGraph
ungranted = Graph.upsert_node op_node (Graph.upsert_node plugin_node Graph.empty)

-- the operation, offered by the one implementation
abbrev offering : CapabilityGraph
offering = Graph.link "vivim.vault" put_op granted Graph.offer ungranted

abbrev kernel : Kernel
kernel = record { graph = offering; audit = []; state = []; tools = [] }

abbrev kernel_host : Host
kernel_host = record host { kernel = some kernel }

nothing-IsIndexed : IsIndexed everything Graph.empty
unfolding who_offers who_holds members Dict.get StrSet.has
nothing-IsIndexed = record { offers = λ c t. refl; holds = λ c t. refl; provenance = tt }

offering-IsIndexed : IsIndexed everything offering
unfolding Graph.grant Graph.link Graph.upsert_node Dict.get Dict.put
offering-IsIndexed =
    grant-IsIndexed everything "vivim.vault" "vivim.vault" put_op granted Graph.offer ungranted
      offering
      (upsert_node-IsIndexed everything op_node (Graph.upsert_node plugin_node Graph.empty)
        (upsert_node-IsIndexed everything plugin_node Graph.empty nothing-IsIndexed))
      refl

-- the call of the operation goes to its offeror
resolved_to_offeror : resolve_target kernel_host run put_op ≡ some vault_put
unfolding resolve_target choose who_offers members Dict.get StrSet.has Graph.link Graph.insert
    Graph.ensure Graph.upsert_node Dict.put StrSet.add
resolved_to_offeror = refl

-- a kernel with two generations of the tool, which nobody offers, and a caller that declares a range
abbrev published_host : Host
published_host = record host {
  dependencies = (run, record { ref = "contract:vault.put"; range = "1.x" } ∷ []) ∷ [];
  kernel = some (record {
    graph = Graph.empty;
    audit = [];
    state = [];
    tools =
        (
          "vault.put",
          record { version = "1"; impl = "vault.a" }
              ∷ record { version = "1.2"; impl = "vault.b" }
              ∷ record { version = "2"; impl = "vault.c" }
              ∷ [],
        )
        ∷ [];
  });
}

resolved_to_newest :
    resolve_target published_host run put_op
    ≡ some (record { impl = "vault.b"; op = "vault.put@1.2" })
unfolding resolve_target choose caller_range range_in strip_prefix who_offers members Tools.resolve
    Tools.newest Tools.matches_range Tools.first_segment strip_suffix Dict.get StrSet.has ◌⧺◌
    split_last op_parts
resolved_to_newest = refl

resolve_target_lem_example :
    ((t : Target)
      → resolve_target kernel_host run put_op ≡ some t
      → IsSigned everything kernel put_op (caller_range kernel_host run put_op) t)
    × ((impl : String)
        → IsOffered everything kernel put_op impl
        → resolve_target kernel_host run put_op ≢ none)
    × (who_offers put_op kernel.graph ≡ []
        → caller_range kernel_host run put_op ≡ none
        → resolve_target kernel_host run put_op ≡ none)
resolve_target_lem_example =
    resolve_target_lem everything kernel_host kernel run put_op refl offering-IsIndexed
