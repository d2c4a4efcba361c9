-- ===== src/Host/Lanes/Events.antt =====
-- The events that the lanes of host/src/ports.ts see, and sequences of them.
use vivim_omega.Common.{
  ℕ, ◌≤◌, String, ◌≡◌, true, List, [], ◌∷◌, ◌==◌, arith, length, Bool-cases, Option-cases, inl, inr,
}
use vivim_omega.Common.Dict
use vivim_omega.Common.Dict.{Dict, get-put, get-delete}
use vivim_omega.Common.StrSet
use vivim_omega.Host.Port.{PortResult, fail, degraded}
use vivim_omega.Host.Lanes.{
  Item, Message, Lanes, max_inflight, inflight_of, waiting_of, settle, deliver, on_return,
  on_timeout, settle_all, fail_keys, fail_inflight,
}
use vivim_omega.Host.Lanes.Capacity.{
  IsWithin, settle-IsWithin, deliver-IsWithin, on_return-IsWithin, on_timeout-IsWithin,
  max_inflight-cap,
}

-- A deliver; a `return` by the compartment that holds the call; a deadline that runs out for a call
-- in flight; a crash or termination.
pub data Step {V : Type 0} (s : Lanes V) : Lanes V → Type 0 where
  delivers : (now : ℕ) (target : String) (msg : Message) → Step s (deliver now target msg s)
  returns :
      (now : ℕ) (plugin_id key : String) (r : PortResult V)
      → StrSet.has key (inflight_of s plugin_id) ≡ true
      → Step s (on_return now plugin_id key r s)
  times_out :
      (now : ℕ) (item : Item)
      → StrSet.has item.msg.causation_id (inflight_of s item.target_id) ≡ true
      → Step s (on_timeout now item s)
  fails : (plugin_id : String) → Step s (fail_inflight plugin_id s)

pub data Reach {V : Type 0} (s : Lanes V) : Lanes V → Type 0 where
  here : Reach s s
  next : {t u : Lanes V} → Reach s t → Step t u → Reach s u

module _ {V : Type 0} where
  settle_all-IsWithin :
      {b : Dict ℕ} (q : List Item) (r : PortResult V) (s : Lanes V)
      → IsWithin b s
      → IsWithin b (settle_all q r s)
  unfolding settle_all
  settle_all-IsWithin [] r s h = h
  settle_all-IsWithin (item ∷ q) r s h =
      settle_all-IsWithin q r (settle item.ticket r s) (settle-IsWithin item.ticket r s h)

  unpend-IsWithin :
      {b : Dict ℕ} (key : String) (s : Lanes V)
      → IsWithin b s
      → IsWithin b (record s { pending = Dict.delete key s.pending })
  unfolding inflight_of waiting_of
  unpend-IsWithin key s h = record { same = h.same; at_target = h.at_target; queued = h.queued }

  fail_keys-IsWithin :
      {b : Dict ℕ} (keys : StrSet.StrSet) (s : Lanes V)
      → IsWithin b s
      → IsWithin b (fail_keys keys s)
  unfolding fail_keys
  fail_keys-IsWithin [] s h = h
  fail_keys-IsWithin (key ∷ keys) s h = elim (Option-cases (Dict.get key s.pending)) [
    | inl e ↦ rw (e, fail_keys) (fail_keys-IsWithin keys s h)
    | inr (p, e) ↦
        rw (e, fail_keys)
          (fail_keys-IsWithin keys _
            (settle-IsWithin p.ticket (fail degraded) _ (unpend-IsWithin key s h)))
  ]

  unwait-IsWithin :
      {b : Dict ℕ} (plugin_id : String) (s : Lanes V)
      → IsWithin b s
      → IsWithin b (record s { waiting = Dict.delete plugin_id s.waiting })
  unfolding inflight_of waiting_of
  unwait-IsWithin plugin_id s h = record {
    same = h.same;
    at_target = h.at_target;
    queued = λ t. elim (Bool-cases (plugin_id == t)) [
      | inl e ↦ simp get-delete (rw e tt)
      | inr e ↦ simp get-delete (rw e (h.queued t))
    ];
  }

  clear-IsWithin :
      {b : Dict ℕ} (plugin_id : String) (s : Lanes V)
      → IsWithin b s
      → IsWithin b (record s { inflight = Dict.put plugin_id [] s.inflight })
  unfolding inflight_of waiting_of
  clear-IsWithin plugin_id s h = record {
    same = h.same;
    at_target = λ t. ground (arith, h.at_target t, get-put plugin_id t [] s.inflight);
    queued = h.queued;
  }

  fail_inflight-IsWithin :
      {b : Dict ℕ} (plugin_id : String) (s : Lanes V)
      → IsWithin b s
      → IsWithin b (fail_inflight plugin_id s)
  unfolding fail_inflight
  fail_inflight-IsWithin plugin_id s h =
      let s1 = settle_all (waiting_of s plugin_id) (fail degraded) s in
      let h2 =
        unwait-IsWithin plugin_id s1
          (settle_all-IsWithin (waiting_of s plugin_id) (fail degraded) s h) in
      elim (Option-cases (Dict.get plugin_id s.inflight)) [
        | inl e ↦ rw (e, fail_inflight) h2
        | inr (keys, e) ↦
            rw (e, fail_inflight) (clear-IsWithin plugin_id _ (fail_keys-IsWithin keys _ h2))
      ]

  Step-IsWithin : {b : Dict ℕ} {s t : Lanes V} → Step s t → IsWithin b s → IsWithin b t
  Step-IsWithin (delivers now target msg) h = deliver-IsWithin now target msg _ h
  Step-IsWithin (returns now plugin_id key r held) h =
      on_return-IsWithin now plugin_id key r _ held h
  Step-IsWithin (times_out now item held) h = on_timeout-IsWithin now item _ held h
  Step-IsWithin (fails plugin_id) h = fail_inflight-IsWithin plugin_id _ h

  pub Reach-IsWithin : {b : Dict ℕ} {s t : Lanes V} → IsWithin b s → Reach s t → IsWithin b t
  Reach-IsWithin h here = h
  Reach-IsWithin h (next r st) = Step-IsWithin st (Reach-IsWithin h r)

  -- Whatever is delivered, returned, timed out or crashed, no compartment has more calls in flight
  -- than its budget (4 where the manifest gives none), provided that a `return` comes from the
  -- compartment that holds the call and that a timer runs for a call in flight.
  pub inflight_bounded :
      {b : Dict ℕ} {s t : Lanes V}
      → IsWithin b s
      → Reach s t
      → (target : String) → length (inflight_of t target) ≤ max_inflight t target
  inflight_bounded {b} {s} {t} h r target =
      let w = Reach-IsWithin h r in rw (max_inflight-cap target t w) (w.at_target target)
