-- ===== src/Host/Register.antt =====
-- Registering an entry at the router, host/src/ports.ts (`register`, `registerDormant`), with
-- `riskyOps` of contracts/src/manifest.ts. `registerGraph` and `installTokens` are those of
-- Host/Kernel and Host/Tokens; an error that `registerGraph` throws is `none`. The handle of a
-- compartment stands for its state, "booting" when it is registered.
pub mod Gated
mod Examples
use vivim_omega.Common.{String, Bool, true, false, Option, none, some, List, [], ◌∷◌, or_else}
use vivim_omega.Common.Dict
use vivim_omega.Common.Dict.{Dict}
use vivim_omega.Common.StrSet
use vivim_omega.Common.StrSet.{StrSet}
use vivim_omega.Common.Text.{◌⧺◌}
use vivim_omega.Host.Tokens.{TokenTable, install_tokens}
use vivim_omega.Host.Lanes.{Priority, normal}
use vivim_omega.Host.Audit.{GrantPayload}
use vivim_omega.Host.Graph.{Granularity}
use vivim_omega.Host.Kernel.{Entry, Kernel, register_graph}
use vivim_omega.Host.Dispatch.{Host, HandleState, booting, DependencyRef}
use vivim_omega.Law.Policy.{RiskClass, read, mutation, external_mutation}

-- a contribution of kind "contract"
pub record Contribution : Type 0 where
  pub id : String
  pub version : String
  pub risk : Option RiskClass
  pub priority : Option Priority

-- the fields of a manifest that the router reads
pub record PluginManifest : Type 0 where
  pub contracts : List Contribution
  pub dependencies : List DependencyRef
  pub granularity : Option Granularity
  pub extraction_candidate : Option Bool

pub record Router : Type 0 where
  pub host : Host
  pub op_priority : Dict Priority
  pub tokens : TokenTable
  pub graph_seen : StrSet

abbrev pub risk_text : RiskClass → String
risk_text read = "READ"
risk_text mutation = "MUTATION"
risk_text external_mutation = "EXTERNAL_MUTATION"

abbrev pub op_of : Contribution → String
op_of c = c.id ⧺ ("@" ⧺ c.version)

-- the loop over `riskyOps(manifest)`
unfoldable pub set_risks : List Contribution → Dict String → Dict String
set_risks [] m = m
set_risks (c ∷ cs) m =
    set_risks cs
      (elim c.risk [ none ↦ m | some read ↦ m | some risk ↦ Dict.put (op_of c) (risk_text risk) m ])

unfoldable pub set_routes : String → List String → Dict String → Dict String
set_routes id [] m = m
set_routes id (op ∷ ops) m = set_routes id ops (Dict.put op id m)

unfoldable pub set_priorities : List Contribution → Dict Priority → Dict Priority
set_priorities [] m = m
set_priorities (c ∷ cs) m = set_priorities cs (Dict.put (op_of c) (or_else c.priority normal) m)

module _ (hash sign : GrantPayload → String) (verify : GrantPayload → String → Bool) where
  unfoldable pub graph_of :
      Entry → PluginManifest → StrSet → Option Kernel → Option (StrSet × Option Kernel)
  unfolding register_graph
  graph_of entry manifest seen none = some (seen, none)
  graph_of entry manifest seen (some k) =
      elim (register_graph hash sign verify entry manifest.granularity manifest.extraction_candidate
        seen k) [ none ↦ none | some (seen', k') ↦ some (seen', some k') ]

  -- the statements that `register` and `registerDormant` share
  unfoldable pub register_common : Entry → PluginManifest → Dict String → Router → Option Router
  unfolding graph_of set_risks set_routes set_priorities install_tokens
  register_common entry manifest tokens r =
      elim (graph_of entry manifest r.graph_seen r.host.kernel) [
        | none ↦ none
        | some (seen, kernel) ↦ some (record {
          host = record r.host {
            op_route = set_routes entry.id entry.contracts r.host.op_route;
            op_risk = set_risks manifest.contracts r.host.op_risk;
            dependencies = Dict.put entry.id manifest.dependencies r.host.dependencies;
            kernel = kernel;
          };
          op_priority = set_priorities manifest.contracts r.op_priority;
          tokens = install_tokens entry.id tokens r.tokens;
          graph_seen = seen;
        })
      ]

  unfoldable pub register : Entry → PluginManifest → Dict String → Router → Option Router
  unfolding register_common
  register entry manifest tokens r = elim (register_common entry manifest tokens r) [
    | none ↦ none
    | some r' ↦ some (record r' {
      host = record r'.host { compartments = Dict.put entry.id booting r'.host.compartments };
    })
  ]

  unfoldable pub register_dormant : Entry → PluginManifest → Dict String → Router → Option Router
  unfolding register_common
  register_dormant entry manifest tokens r = elim (register_common entry manifest tokens r) [
    | none ↦ none
    | some r' ↦
        some (record r' { host = record r'.host { dormant = StrSet.add entry.id r'.host.dormant } })
  ]
