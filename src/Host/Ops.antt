-- ===== src/Host/Ops.antt =====
-- The host's own operations, host/src/ports.ts (`hostOp`), with the copies that they hand out
-- (`snapshot` of graph.ts, `export` of audit.ts). The counters of a compartment are its handle's and
-- left out of a stats row; the journal is best effort. `terminate` of worker.ts puts the handle's
-- state to "stopped" at once.
pub mod Locks
mod Examples
use vivim_omega.Common.{
  ℕ, String, Bool, true, false, not, Option, none, some, List, [], ◌∷◌, ◌++◌, ◌==◌, if◌then◌else◌,
  or_else, length, map,
}
use vivim_omega.Common.Dict
use vivim_omega.Common.Dict.{Dict}
use vivim_omega.Common.StrSet
use vivim_omega.Common.StrSet.{StrSet}
use vivim_omega.Host.Port.{
  PortResult, ok, fail, refused, scope, degraded, stats_op, terminate_op, spawn_op, journal_op,
  revoke_op, acquire_op, release_op, snapshot_op, chain_op,
}
use vivim_omega.Host.Tokens
use vivim_omega.Host.Tokens.{TokenTable}
use vivim_omega.Host.Lanes.{Lanes, inflight_of, fail_inflight}
use vivim_omega.Host.Arbiter
use vivim_omega.Host.Arbiter.{LockMode, shared, exclusive, try_acquire}
use vivim_omega.Host.Audit.{GrantPayload, SignedGrant, AuditLog, head_hash, verify_chain}
use vivim_omega.Host.Graph.{CapabilityGraph, GraphNode, Edge, EdgeKind}
use vivim_omega.Host.Kernel.{Kernel}
use vivim_omega.Host.Dispatch.{HandleState, stopped}

-- the field `pluginId` of a payload: a text, absent (or false in an `if`), or any other value
pub data PluginField : Type 0 where
  absent : PluginField
  plugin_text : String → PluginField
  other_value : PluginField

-- the fields that the operations read of a payload, `none` where absent or no text
pub record HostPayload : Type 0 where
  pub plugin_id : PluginField
  pub key : Option String
  pub mode : Option String

pub record HostState (V : Type 0) : Type 0 where
  pub tokens : TokenTable
  pub lanes : Lanes V
  pub compartments : Dict HandleState
  pub dormant : StrSet
  pub kernel : Option Kernel

-- the state of a stats row: `none` for a dormant entry
pub record StatsRow : Type 0 where
  pub id : String
  pub state : Option HandleState
  pub inflight : ℕ

pub record GraphSnapshot : Type 0 where
  pub nodes : List GraphNode
  pub edges : List (String × String × EdgeKind)

pub record ChainExport : Type 0 where
  pub verified : Bool
  pub size : ℕ
  pub head : String
  pub entries : AuditLog

pub data HostValue : Type 0 where
  stats : List StatsRow → HostValue
  terminated : String → HostValue
  appended : HostValue
  revoked : ℕ → ℕ → HostValue
  acquired : String → LockMode → String → HostValue
  released : String → String → HostValue
  graph : GraphSnapshot → HostValue
  chain : ChainExport → HostValue

unfoldable pub snapshot : CapabilityGraph → GraphSnapshot
snapshot g = record {
  nodes = Dict.values g.nodes;
  edges = map (λ (e : Edge). (e.to, e.capability, e.kind)) g.edges;
}

unfoldable pub export_chain :
    (GrantPayload → String) → (GrantPayload → String → Bool) → AuditLog → ChainExport
export_chain hash verify log = record {
  verified = verify_chain hash verify log;
  size = length log;
  head = head_hash hash log;
  entries = log;
}

-- the text of a field that must not be empty
abbrev pub text_of : Option String → Option String
text_of none = none
text_of (some s) = if s == "" then none else some s

-- `mode === "shared" ? "shared" : "exclusive"`
abbrev pub lock_mode : Option String → LockMode
lock_mode none = exclusive
lock_mode (some m) = if m == "shared" then shared else exclusive

abbrev pub with_kernel : Option Kernel → (Kernel → HostValue) → PortResult HostValue
with_kernel none f = fail degraded
with_kernel (some k) f = ok (f k)

module _ {V : Type 0} where
  unfoldable pub dormant_rows : HostState V → StrSet → List StatsRow
  dormant_rows s [] = []
  dormant_rows s (id ∷ ids) =
      let rest = dormant_rows s ids in
      if Dict.has id s.compartments
      then rest
      else record { id = id; state = none; inflight = 0 } ∷ rest

  unfoldable pub stats_rows : HostState V → List StatsRow
  unfolding dormant_rows
  stats_rows s =
      map
        (λ (e : String × HandleState). record {
          id = e.0;
          state = some e.1;
          inflight = length (inflight_of s.lanes e.0);
        })
        s.compartments
      ++ dormant_rows s s.dormant

  unfoldable pub terminate : PluginField → HostState V → PortResult HostValue × HostState V
  terminate absent s = (fail scope, s)
  terminate other_value s = (fail scope, s)
  terminate (plugin_text plugin_id) s =
      if not (Dict.has plugin_id s.compartments) then (fail scope, s) else (
        ok (terminated plugin_id),
        record s {
          lanes = fail_inflight plugin_id s.lanes;
          compartments = Dict.put plugin_id stopped s.compartments;
        },
      )

  -- no record has the owner that is no text
  unfoldable pub revoke_tokens : PluginField → HostState V → PortResult HostValue × HostState V
  revoke_tokens absent s =
      let (tokens, affected) = Tokens.revoke none s.tokens in
      (ok (revoked tokens.generation affected), record s { tokens = tokens })
  revoke_tokens (plugin_text plugin_id) s =
      let (tokens, affected) = Tokens.revoke (some plugin_id) s.tokens in
      (ok (revoked tokens.generation affected), record s { tokens = tokens })
  revoke_tokens other_value s = (ok (revoked s.tokens.generation 0), s)

  unfoldable pub state_acquire :
      String → HostPayload → HostState V → PortResult HostValue × HostState V
  state_acquire caller p s = elim s.kernel [
    | none ↦ (fail degraded, s)
    | some k ↦ elim (text_of p.key) [
      | none ↦ (fail scope, s)
      | some key ↦
          let (locks, given) = try_acquire key caller (lock_mode p.mode) k.state in
          if given
          then (
            ok (acquired key (lock_mode p.mode) caller),
            record s { kernel = some (record k { state = locks }) },
          )
          else (fail refused, s)
    ]
  ]

  unfoldable pub state_release :
      String → HostPayload → HostState V → PortResult HostValue × HostState V
  state_release caller p s = elim s.kernel [
    | none ↦ (fail degraded, s)
    | some k ↦ elim (text_of p.key) [
      | none ↦ (fail scope, s)
      | some key ↦ (
        ok (released key caller),
        record s { kernel = some (record k { state = Arbiter.release key caller k.state }) },
      )
    ]
  ]

  unfoldable pub host_op :
      (GrantPayload → String)
      → (GrantPayload → String → Bool)
      → String
      → String
      → HostPayload
      → HostState V
      → PortResult HostValue × HostState V
  unfolding stats_rows terminate revoke_tokens state_acquire state_release snapshot export_chain
  host_op hash verify caller op p s =
      if op == stats_op
      then (ok (stats (stats_rows s)), s)
      else if op == terminate_op
      then terminate p.plugin_id s
      else if op == spawn_op
      then (fail refused, s)
      else if op == journal_op
      then (ok appended, s)
      else if op == revoke_op
      then revoke_tokens p.plugin_id s
      else if op == acquire_op
      then state_acquire caller p s
      else if op == release_op
      then state_release caller p s
      else if op == snapshot_op
      then (with_kernel s.kernel (λ k. graph (snapshot k.graph)), s)
      else if op == chain_op
      then (with_kernel s.kernel (λ k. chain (export_chain hash verify k.audit)), s)
      else (fail refused, s)
