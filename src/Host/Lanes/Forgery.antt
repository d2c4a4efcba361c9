-- ===== src/Host/Lanes/Forgery.antt =====
-- The `return` message and its sender, `onWorkerMessage` of host/src/ports.ts.
use vivim_omega.Common.{
  ℕ, String, ◌≡◌, ◌≢◌, refl, false, some, List, [], ◌∷◌, ◌==◌, arith, Bool-cases, Option-cases, inl,
  inr, ==_ne,
}
use vivim_omega.Common.Dict
use vivim_omega.Common.Dict.{Dict, get-put}
use vivim_omega.Common.StrSet
use vivim_omega.Host.Port.{PortResult, fail, budget}
use vivim_omega.Host.Lanes.{
  Item, Pending, Lanes, inflight_of, waiting_of, settle, dec_inflight, is_expired, start,
  admit_next, release, on_return,
}
use vivim_omega.Host.Lanes.Capacity.{IsWithin, AllFor}

module _ {V : Type 0} where
  inflight-dec_ne :
      (target key t : String) (s : Lanes V)
      → (target == t) ≡ false
      → inflight_of (dec_inflight target key s) t ≡ inflight_of s t
  unfolding dec_inflight inflight_of
  inflight-dec_ne target key t s ne = elim (Option-cases (Dict.get target s.inflight)) [
    | inl e ↦ ground (arith, e)
    | inr (keys, e) ↦ ground (arith, e, ne, get-put target t (StrSet.delete key keys) s.inflight)
  ]

  inflight-start_ne :
      (item : Item) (t : String) (s : Lanes V)
      → (item.target_id == t) ≡ false
      → inflight_of (start item s) t ≡ inflight_of s t
  unfolding start inflight_of
  inflight-start_ne item t s ne = ground (
    arith,
    ne,
    get-put item.target_id t (StrSet.add item.msg.causation_id (inflight_of s item.target_id))
        s.inflight,
  )

  inflight-settle :
      (n : ℕ) (r : PortResult V) (t : String) (s : Lanes V)
      → inflight_of (settle n r s) t ≡ inflight_of s t
  unfolding settle inflight_of
  inflight-settle n r t s = refl

  inflight-queue :
      (target : String) (q : List Item) (t : String) (s : Lanes V)
      → inflight_of (record s { waiting = Dict.put target q s.waiting }) t ≡ inflight_of s t
  unfolding inflight_of
  inflight-queue target q t s = refl

  -- handing on a place of one compartment leaves the others as they were
  inflight-admit_next_ne :
      (now : ℕ) (target t : String) (q : List Item) (s : Lanes V)
      → AllFor target q
      → (target == t) ≡ false
      → inflight_of (admit_next now target q s) t ≡ inflight_of s t
  unfolding admit_next
  inflight-admit_next_ne now target t [] s h ne = refl
  inflight-admit_next_ne now target t (item ∷ q) s h ne =
      let s' = record s { waiting = Dict.put target q s.waiting } in
      let s2 = settle item.ticket (fail budget) s' in
      let item_ne : (item.target_id == t) ≡ false = rw h.0 ne in
      elim (Bool-cases (is_expired now item)) [
        | inl e ↦ rw e (
            cc (
              inflight-admit_next_ne now target t q (dec_inflight item.target_id "" s2) h.1 ne,
              inflight-dec_ne item.target_id "" t s2 item_ne,
              inflight-settle item.ticket (fail budget) t s',
              inflight-queue target q t s,
            ))
        | inr e ↦ rw e (cc (inflight-start_ne item t s' item_ne, inflight-queue target q t s))
      ]

  inflight-release_ne :
      (now : ℕ) (target key t : String) (s : Lanes V)
      → AllFor target (waiting_of s target)
      → (target == t) ≡ false
      → inflight_of (release now target key s) t ≡ inflight_of s t
  unfolding release
  inflight-release_ne now target key t s h ne = cc (
    inflight-admit_next_ne now target t (waiting_of s target) (dec_inflight target key s) h ne,
    inflight-dec_ne target key t s ne,
  )

  inflight-unpend :
      (key t : String) (s : Lanes V)
      → inflight_of (record s { pending = Dict.delete key s.pending }) t ≡ inflight_of s t
  unfolding inflight_of
  inflight-unpend key t s = refl

  waiting-unpend :
      (key t : String) (s : Lanes V)
      → waiting_of (record s { pending = Dict.delete key s.pending }) t ≡ waiting_of s t
  unfolding waiting_of
  waiting-unpend key t s = refl

  -- A `return` from any other compartment with the causation id of a call in flight settles that
  -- call with the sender's result, and the compartment that the call was delivered to keeps all its
  -- places occupied.
  pub forged_return :
      {b : Dict ℕ} (now : ℕ) (sender target key : String) (p : Pending) (r : PortResult V)
      (s : Lanes V)
      → IsWithin b s
      → sender ≢ target
      → Dict.get key s.pending ≡ some p
      → ((rest : List (ℕ × PortResult V)) × ((on_return now sender key r s).settled
            ≡ (p.ticket, r) ∷ rest))
        × (inflight_of (on_return now sender key r s) target ≡ inflight_of s target)
  unfolding on_return
  forged_return now sender target key p r s h ne e =
      let s' = record s { pending = Dict.delete key s.pending } in
      let ne' = ==_ne sender target ne in
      rw (e, on_return)
        (
          ((release now sender key s').settled, unfold settle in refl),
          cc (
            inflight-settle p.ticket r target (release now sender key s'),
            inflight-release_ne now sender key target s'
                (rw (waiting-unpend key sender s) (h.queued sender)) ne',
            inflight-unpend key target s,
          ),
        )
