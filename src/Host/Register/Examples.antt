-- ===== src/Host/Register/Examples.antt =====
-- Registering a plugin of host/src/ports.ts at concrete inputs: a router without a kernel.
use vivim_omega.Common.{String, ◌≡◌, refl, Bool, true, Option, none, some, [], ◌∷◌, inl}
use vivim_omega.Common.Text.{◌⧺◌}
use vivim_omega.Host.Audit.{GrantPayload}
use vivim_omega.Host.Kernel.{Entry}
use vivim_omega.Host.Dispatch.{is_risky}
use vivim_omega.Law.Policy.{mutation}
use vivim_omega.Host.Register.{PluginManifest, Router, register}
use vivim_omega.Host.Register.Gated.{declared_risk_is_gated}

abbrev digest : GrantPayload → String
digest p = p.capability

abbrev everything : GrantPayload → String → Bool
everything p signature = true

abbrev vault : Entry
vault = record { id = "vivim.vault"; capabilities = []; contracts = "vault.put@1" ∷ [] }

abbrev manifest : PluginManifest
manifest = record {
  contracts =
      record { id = "vault.put"; version = "1"; risk = some mutation; priority = none } ∷ [];
  dependencies = [];
  granularity = none;
  extraction_candidate = none;
}

abbrev bare : Router
bare = record {
  host = record {
    op_route = [];
    op_risk = [];
    dependencies = [];
    kernel = none;
    compartments = [];
    dormant = [];
  };
  op_priority = [];
  tokens = record { tokens = []; generation = 1 };
  graph_seen = [];
}

-- the router after the registration
abbrev after : Option Router → Router
after none = bare
after (some r) = r

abbrev registered : Router
registered = after (register digest digest everything vault manifest [] bare)

declared_risk_is_gated_example : is_risky registered.host "vault.put@1" ≡ true
unfolding register ◌⧺◌
declared_risk_is_gated_example =
    declared_risk_is_gated digest digest everything vault manifest [] bare registered "vault.put@1"
      refl (inl refl)
