-- ===== src/Host/Dispatch/Targets.antt =====
-- The target of a call, `resolveTarget` of host/src/ports.ts.
use mathlib.Core.Path.{subst}
use vivim_omega.Common.{
  String, ◌≡◌, ◌≢◌, refl, true, ◌⊎◌, Option, none, some, List, [], ◌∷◌, eq_refl, arith, or_else,
  Bool-cases, Option-cases, inl, inr, get_last?, Bool,
}
use vivim_omega.Common.StrSet
use vivim_omega.Common.StrSet.{StrSet}
use vivim_omega.Host.Audit.{GrantPayload}
use vivim_omega.Host.Graph.{who_offers}
use vivim_omega.Host.Graph.Index.{IsIndexed}
use vivim_omega.Host.Tools
use vivim_omega.Host.Kernel.{Kernel, op_name}
use vivim_omega.Host.Dispatch.Generations.{IsNewest, resolve-IsNewest}
use vivim_omega.Host.Dispatch.Offers.{IsOffered, IsOffered-has, has-IsOffered}
use vivim_omega.Host.Dispatch.{Host, Target, caller_range, pinned, among, choose, resolve_target}

-- the operation itself, at an implementation with a signed offer; or the newest generation in range,
-- which has a signed offer too where anything has one
abbrev pub IsSigned :
    (GrantPayload → String → Bool) → Kernel → String → Option String → Target → Type 0
IsSigned verify k op range t =
    ((t.op ≡ op) × IsOffered verify k op t.impl)
    ⊎ ((pin : Tools.GenerationPin) × IsNewest k (op_name op) (or_else range "*") pin
        × (t ≡ pinned op pin)
        × ((who_offers op k.graph ≡ []) ⊎ IsOffered verify k op pin.impl))

-- the same, as the code finds it
abbrev IsSound : Kernel → String → Option String → StrSet → Target → Type 0
IsSound k op range offerors t =
    ((t.op ≡ op) × (StrSet.has t.impl offerors ≡ true))
    ⊎ ((pin : Tools.GenerationPin) × (Tools.resolve (op_name op) (or_else range "*") k.tools
          ≡ some pin)
        × (t ≡ pinned op pin)
        × ((offerors ≡ []) ⊎ (StrSet.has pin.impl offerors ≡ true)))

has-last :
    (d x : String) (xs : List String) → StrSet.has (or_else (get_last? (x ∷ xs)) d) (x ∷ xs) ≡ true
unfolding StrSet.has
has-last d x [] = ground (arith, eq_refl x)
has-last d x (y ∷ xs) = ground (arith, has-last d y xs)

among-IsSound :
    (k : Kernel) (op : String) (range : Option String) (offerors : StrSet) (last : String)
    → StrSet.has last offerors ≡ true
    → IsSound k op range offerors (among k op range offerors last)
unfolding among
among-IsSound k op range offerors last h =
    elim (Option-cases (Tools.resolve (op_name op) (or_else range "*") k.tools)) [
      | inl e ↦ rw (e, among) (inl (refl, h))
      | inr (pin, e) ↦ elim (Bool-cases (StrSet.has pin.impl offerors)) [
        | inl offered ↦ rw (e, among) (rw offered (inr (pin, refl, refl, inr offered)))
        | inr other ↦ rw (e, among) (rw other (inl (refl, h)))
      ]
    ]

choose-IsSound :
    (k : Kernel) (op : String) (range : Option String) (offerors : StrSet) (t : Target)
    → choose k op range offerors ≡ some t
    → IsSound k op range offerors t
unfolding choose StrSet.has
choose-IsSound k op none [] t e = cc
choose-IsSound k op (some r) [] t e = elim (Option-cases (Tools.resolve (op_name op) r k.tools)) [
  | inl absent ↦ absurd (ground (arith, e, absent))
  | inr (pin, found) ↦ inr (pin, found, ground (arith, e, found), inl refl)
]
choose-IsSound k op range (only ∷ []) t e = inl (ground (arith, e), ground (arith, e, eq_refl only))
choose-IsSound k op range (first ∷ second ∷ rest) t e =
    let all = first ∷ second ∷ rest in
    let last = or_else (get_last? (second ∷ rest)) second in
    subst (IsSound k op range all) (cc e)
      (among-IsSound k op range all last (ground (arith, has-last second second rest)))

IsSigned-IsSound :
    (verify : GrantPayload → String → Bool) (k : Kernel) (op : String) (range : Option String)
    (t : Target)
    → IsIndexed verify k.graph
    → IsSound k op range (who_offers op k.graph) t
    → IsSigned verify k op range t
IsSigned-IsSound verify k op range t indexed (inl (same, h)) =
    inl (same, IsOffered-has verify k op t.impl indexed h)
IsSigned-IsSound verify k op range t indexed (inr (pin, found, at, inl nobody)) =
    inr (pin, resolve-IsNewest k (op_name op) (or_else range "*") pin found, at, inl nobody)
IsSigned-IsSound verify k op range t indexed (inr (pin, found, at, inr h)) = inr (
  pin,
  resolve-IsNewest k (op_name op) (or_else range "*") pin found,
  at,
  inr (IsOffered-has verify k op pin.impl indexed h),
)

choose-offered :
    (k : Kernel) (op impl : String) (range : Option String) (offerors : StrSet)
    → StrSet.has impl offerors ≡ true
    → choose k op range offerors ≢ none
unfolding choose StrSet.has
choose-offered k op impl range [] h e = ground (arith, h)
choose-offered k op impl range (only ∷ []) h e = cc
choose-offered k op impl range (first ∷ second ∷ rest) h e = cc

-- With a kernel attached whose graph is indexed (each edge that was granted verified), a resolved
-- call either keeps its operation and goes to an implementation with a signed offer of it, or goes
-- to the last published generation of the tool's name whose version is in the range that the caller
-- declared ("*" where it declared none); that one has a signed offer of the operation too, unless
-- nobody offers it. An operation with a signed offer is always resolved, and one that nobody offers
-- never for a caller that declared no range.
pub resolve_target_lem :
    (verify : GrantPayload → String → Bool) (h : Host) (k : Kernel) (principal op : String)
    → h.kernel ≡ some k
    → IsIndexed verify k.graph
    → ((t : Target)
        → resolve_target h principal op ≡ some t
        → IsSigned verify k op (caller_range h principal op) t)
      × ((impl : String) → IsOffered verify k op impl → resolve_target h principal op ≢ none)
      × (who_offers op k.graph ≡ []
          → caller_range h principal op ≡ none
          → resolve_target h principal op ≡ none)
unfolding resolve_target choose
resolve_target_lem verify h k principal op e indexed = (
  λ t r. IsSigned-IsSound verify k op (caller_range h principal op) t indexed (
      choose-IsSound k op (caller_range h principal op) (who_offers op k.graph) t
        (rw (e, resolve_target) at r)),
  λ impl o r.
      choose-offered k op impl (caller_range h principal op) (who_offers op k.graph)
        (has-IsOffered verify k op impl indexed o) (rw (e, resolve_target) at r),
  λ nobody undeclared. rw (e, resolve_target) (rw (nobody, choose) (rw (undeclared, choose))),
)
