-- ===== src/Host/Port.antt =====
-- The wire types of contracts/src/port.ts, the host operations and the capabilities that guard them
-- (contracts/src/lifecycle.ts). The `detail` texts of a failure are left out: no code reads them.
use vivim_omega.Common.{String, Bool, Option, List, [], ◌∷◌, ◌==◌, any, if◌then◌else◌, or_else}
use vivim_omega.Common.Dict
use vivim_omega.Common.Dict.{Dict}
use vivim_omega.Common.Text.{◌⧺◌}

pub data PortError : Type 0 where
  refused revoked scope budget degraded : PortError

-- `RefusalReport`: the gate that refused, named
pub record Refusal : Type 0 where
  pub rule : String
  pub principal : String
  pub op : String
  pub consent_id : Option String

pub data PortResult (V : Type 0) : Type 0 where
  ok : V → PortResult V
  fail : PortError → PortResult V
  refuse : Refusal → PortResult V  -- error REFUSED with a report

-- HOST_OPS
abbrev pub spawn_op : String
spawn_op = "host.compartment.spawn@1"

abbrev pub terminate_op : String
terminate_op = "host.compartment.terminate@1"

abbrev pub stats_op : String
stats_op = "host.compartment.stats@1"

abbrev pub journal_op : String
journal_op = "host.journal.append@1"

abbrev pub revoke_op : String
revoke_op = "host.tokens.revoke@1"

abbrev pub acquire_op : String
acquire_op = "host.state.acquire@1"

abbrev pub release_op : String
release_op = "host.state.release@1"

abbrev pub snapshot_op : String
snapshot_op = "host.graph.snapshot@1"

abbrev pub chain_op : String
chain_op = "host.audit.chain@1"

-- `Object.values(HOST_OPS)`
abbrev pub host_ops : List String
host_ops =
    spawn_op ∷ terminate_op ∷ stats_op ∷ journal_op ∷ revoke_op ∷ acquire_op ∷ release_op
    ∷ snapshot_op ∷ chain_op ∷ []

-- HOST_OP_TO_CAP over HOST_CAPS
abbrev pub host_op_to_cap : Dict String
host_op_to_cap =
    (spawn_op, "host.compartment.admin")
    ∷ (terminate_op, "host.compartment.admin")
    ∷ (stats_op, "host.compartment.admin")
    ∷ (journal_op, "host.journal.append")
    ∷ (revoke_op, "host.tokens.revoke")
    ∷ (acquire_op, "host.state.arbitration")
    ∷ (release_op, "host.state.arbitration")
    ∷ (snapshot_op, "host.kernel.lens")
    ∷ (chain_op, "host.kernel.lens")
    ∷ []

unfoldable pub is_host_op : String → Bool
is_host_op op = any (λ o. o == op) host_ops

unfoldable pub host_cap_for : String → String
host_cap_for op = or_else (Dict.get op host_op_to_cap) ""

-- The capability that a call of `op` needs, as `checkToken` has it.
abbrev pub required_cap : String → String
required_cap op = if is_host_op op then host_cap_for op else "port:" ⧺ op
