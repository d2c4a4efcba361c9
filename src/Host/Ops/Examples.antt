-- ===== src/Host/Ops/Examples.antt =====
-- Host operations of host/src/ports.ts at concrete inputs: a plugin tries to give back a lock that
-- another one holds.
use vivim_omega.Common.{String, ◌≡◌, Bool, true, none, some, [], ◌∷◌}
use vivim_omega.Host.Port.{release_op}
use vivim_omega.Host.Arbiter.{exclusive}
use vivim_omega.Host.Audit.{GrantPayload}
use vivim_omega.Host.Graph
use vivim_omega.Host.Kernel.{Kernel}
use vivim_omega.Host.Ops.{absent, HostPayload, HostState, host_op}
use vivim_omega.Host.Ops.Locks.{others, locks_of, own_locks_only}

abbrev digest : GrantPayload → String
digest p = p.capability

abbrev everything : GrantPayload → String → Bool
everything p signature = true

abbrev kernel : Kernel
kernel = record {
  graph = Graph.empty;
  audit = [];
  state = ("db", record { principal = "vivim.vault"; mode = exclusive } ∷ []) ∷ [];
  tools = [];
}

abbrev host : HostState String
host = record {
  tokens = record { tokens = []; generation = 1 };
  lanes = record {
    compartments = [];
    budgets = [];
    op_priority = [];
    pending = [];
    inflight = [];
    waiting = [];
    delivered = [];
    next_ticket = 0;
    posted = [];
    settled = [];
  };
  compartments = [];
  dormant = [];
  kernel = some kernel;
}

abbrev run : String
run = "vivim.run"

abbrev payload : HostPayload
payload = record { plugin_id = absent; key = some "db"; mode = none }

own_locks_only_example :
    others run "db" (locks_of (host_op digest everything run release_op payload host).1.kernel)
    ≡ others run "db" kernel.state
own_locks_only_example = own_locks_only digest everything run release_op payload host "db"
