-- ===== src/Host/Kernel/Examples.antt =====
-- `registerGraph` of host/src/ports.ts at concrete inputs: one plugin registers at an empty kernel.
use vivim_omega.Common.{String, ◌≡◌, refl, Bool, true, ◌&&◌, ◌||◌, none, some, [], ◌∷◌, ◌==◌}
use vivim_omega.Common.StrSet
use vivim_omega.Host.Audit.{GrantPayload}
use vivim_omega.Host.Graph
use vivim_omega.Host.Graph.{Granularity}
use vivim_omega.Host.Kernel.{Entry, Kernel, register_graph}
use vivim_omega.Host.Kernel.Offers.{offers, register_graph_lem}

abbrev digest : GrantPayload → String
digest p = p.capability

abbrev everything : GrantPayload → String → Bool
everything p signature = true

abbrev fresh_kernel : Kernel
fresh_kernel = record { graph = Graph.empty; audit = []; state = []; tools = [] }

abbrev vault : Entry
vault = record {
  id = "vivim.vault";
  capabilities = "port:law.check@1" ∷ [];
  contracts = "vault.get@1" ∷ [];
}

register_graph_lem_example :
    (k' : Kernel) × (register_graph digest digest everything vault none none [] fresh_kernel
      ≡ some (StrSet.add vault.id [], k'))
    × ((op t : String)
        → offers k' op t
          ≡ ((StrSet.has op vault.contracts && vault.id == t) || offers fresh_kernel op t))
    × (register_graph digest digest everything vault none none (StrSet.add vault.id []) k'
        ≡ some (StrSet.add vault.id [], k'))
unfolding StrSet.has
register_graph_lem_example =
    register_graph_lem digest digest everything (λ p. refl) vault none none [] fresh_kernel refl
