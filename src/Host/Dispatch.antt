-- ===== src/Host/Dispatch.antt =====
-- The dispatch of a call, host/src/ports.ts: `callerRange`, `resolveTarget`, `dispatch`, `callLaw`
-- and `compartmentCall`. Across an `await` the router's state may change: `dispatch` takes the state
-- when it starts and, as `later`, the state when the law has answered. The law's answer and the
-- outcome of a lazy spawn are arguments. The delivery itself is that of `Host.Lanes`.
pub mod Gate
pub mod Generations
pub mod Offers
pub mod Targets
mod Examples
use vivim_omega.Common.{
  String, Bool, true, false, ◌&&◌, ◌||◌, not, Option, none, some, List, [], ◌∷◌, ◌==◌,
  if◌then◌else◌, or_else, get_last?,
}
use vivim_omega.Common.Dict
use vivim_omega.Common.Dict.{Dict}
use vivim_omega.Common.StrSet
use vivim_omega.Common.StrSet.{StrSet}
use vivim_omega.Common.Text.{◌⧺◌, strip_prefix}
use vivim_omega.Host.Port.{PortError, PortResult, ok, fail, refuse, refused, degraded, is_host_op}
use vivim_omega.Host.Tokens.{TokenTable, check_token}
use vivim_omega.Host.Graph.{who_offers}
use vivim_omega.Host.Tools
use vivim_omega.Host.Kernel.{Kernel, op_parts, op_name}

-- `LawDecision`; at run time its `decision` is any text that the law compartment answered
pub record LawDecision : Type 0 where
  pub decision : String
  pub consent_id : Option String

pub data HandleState : Type 0 where
  booting active degraded_state stopped : HandleState

pub record DependencyRef : Type 0 where
  pub ref : String
  pub range : String

pub record Host : Type 0 where
  pub op_route : Dict String
  pub op_risk : Dict String
  pub dependencies : Dict (List DependencyRef)
  pub kernel : Option Kernel
  pub compartments : Dict HandleState
  pub dormant : StrSet

pub record Target : Type 0 where
  pub impl : String
  pub op : String

-- the first dependency on `op` or on its name, in the order declared
unfoldable pub range_in : String → List DependencyRef → Option String
range_in op [] = none
range_in op (d ∷ ds) =
    if d.ref == "contract:" ⧺ op
      || (d.ref == "contract:" ⧺ op_name op
          || op_name (or_else (strip_prefix "contract:" d.ref) d.ref) == op_name op)
    then some (if d.range == "" then "*" else d.range)
    else range_in op ds

unfoldable pub caller_range : Host → String → String → Option String
unfolding range_in
caller_range h principal op = range_in op (or_else (Dict.get principal h.dependencies) [])

-- `{ impl: pin.impl, op: name@version }`
abbrev pub pinned : String → Tools.GenerationPin → Target
pinned op pin = record { impl = pin.impl; op = op_name op ⧺ "@" ⧺ pin.version }

-- several implementations: the newest generation in range, if it is one of them, else the last
unfoldable pub among : Kernel → String → Option String → StrSet → String → Target
among k op range offerors last = elim (Tools.resolve (op_name op) (or_else range "*") k.tools) [
  | none ↦ record { impl = last; op = op }
  | some pin ↦
      if StrSet.has pin.impl offerors then pinned op pin else record { impl = last; op = op }
]

unfoldable pub choose : Kernel → String → Option String → StrSet → Option Target
unfolding among
choose k op range [] = elim range [
  | none ↦ none
  | some r ↦ elim (Tools.resolve (op_name op) r k.tools) [
    | none ↦ none
    | some pin ↦ some (pinned op pin)
  ]
]
choose k op range (only ∷ []) = some (record { impl = only; op = op })
choose k op range (first ∷ second ∷ rest) =
    some (among k op range (first ∷ second ∷ rest) (or_else (get_last? (second ∷ rest)) second))

unfoldable pub resolve_target : Host → String → String → Option Target
unfolding caller_range choose
resolve_target h principal op = elim h.kernel [
  | none ↦ elim (Dict.get op h.op_route) [
    | none ↦ none
    | some t ↦ some (record { impl = t; op = op })
  ]
  | some k ↦ choose k op (caller_range h principal op) (who_offers op k.graph)
]

-- what a dispatch comes to: an answer, or a delivery to a compartment
pub data Outcome (V : Type 0) : Type 0 where
  answered : PortResult V → Outcome V
  delivered : Target → Outcome V

-- `!targetHandle || state is stopped or degraded`
abbrev pub is_down : Option HandleState → Bool
is_down none = true
is_down (some stopped) = true
is_down (some degraded_state) = true
is_down (some _) = false

-- the law's answer `law` stands behind `callLaw`: without a routed law.check@1 (`!lawId`, the empty
-- text too) it is not asked
unfoldable pub call_law : Host → PortResult LawDecision → PortResult LawDecision
call_law h law = elim (Dict.get "law.check@1" h.op_route) [
  | none ↦ fail degraded
  | some law_id ↦ if law_id == "" then fail degraded else law
]

-- `if (risk)`: an op with a declared risk class that is not the empty text
abbrev pub is_risky : Host → String → Bool
is_risky h op = not (or_else (Dict.get op h.op_risk) "" == "")

module _ {V : Type 0} where
  deliver_to : Target → Dict HandleState → Outcome V
  deliver_to t compartments =
      if is_down (Dict.get t.impl compartments) then answered (fail degraded) else delivered t

  -- The lazy spawn and the delivery, at the state `h` after the gate. `spawned` is the compartments
  -- after `spawnDormant`, `none` if it threw.
  unfoldable pub execute : Host → Target → Option (Dict HandleState) → Outcome V
  unfolding deliver_to
  execute h t spawned =
      if not (Dict.has t.impl h.compartments) && StrSet.has t.impl h.dormant
      then elim spawned [
        | none ↦ answered (fail degraded)
        | some compartments ↦ deliver_to t compartments
      ]
      else deliver_to t h.compartments

  abbrev refusal : String → Target → Option String → Outcome V
  refusal principal t consent_id = answered (
      refuse (record {
        rule = "law.check@1";
        principal = principal;
        op = t.op;
        consent_id = consent_id;
      }))

  -- the reading of the law's answer
  unfoldable pub gate :
      Host → String → Target → PortResult LawDecision → Option (Dict HandleState) → Outcome V
  unfolding execute
  gate later principal t (fail e) spawned = answered (fail e)
  gate later principal t (refuse r) spawned = answered (refuse r)
  gate later principal t (ok d) spawned =
      if d.decision == "deny"
      then refusal principal t none
      else if d.decision == "require-consent"
      then refusal principal t d.consent_id
      else execute later t spawned

  -- the part of `dispatch` behind the resolution
  unfoldable pub dispatch_to :
      Host → Host → String → Target → PortResult LawDecision → Option (Dict HandleState) → Outcome V
  unfolding gate call_law
  dispatch_to h later principal t law spawned =
      if is_risky h t.op
      then gate later principal t (call_law h law) spawned
      else execute h t spawned

  unfoldable pub dispatch :
      Host → Host → String → String → PortResult LawDecision → Option (Dict HandleState) → Outcome V
  unfolding resolve_target dispatch_to
  dispatch h later principal op law spawned = elim (resolve_target h principal op) [
    | none ↦ answered (fail refused)
    | some t ↦ dispatch_to h later principal t law spawned
  ]

  -- `compartmentCall`: the token is checked first. `hosted` is the answer of `hostOp`.
  unfoldable pub compartment_call :
      TokenTable
      → Host
      → Host
      → String
      → String
      → String
      → PortResult V
      → PortResult LawDecision
      → Option (Dict HandleState)
      → Outcome V
  unfolding dispatch
  compartment_call tokens h later caller token op hosted law spawned =
      elim (check_token tokens caller token op) [
        | some e ↦ answered (fail e)
        | none ↦ if is_host_op op then answered hosted else dispatch h later caller op law spawned
      ]
