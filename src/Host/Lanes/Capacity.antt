-- ===== src/Host/Lanes/Capacity.antt =====
-- The calls in flight of a compartment against its budget, host/src/ports.ts.
use mathlib.Core.Path.{subst}
use vivim_omega.Common.{
  ℕ, suc, ◌≤◌, ◌<◌, String, ◌≡◌, refl, true, List, [], ◌∷◌, ◌==◌, eq_iff, eq_refl, ltb, arith,
  if◌then◌else◌, ap, or_else, length, Bool-cases, Option-cases, inl, inr, ltb→lt, All,
}
use vivim_omega.Common.Dict
use vivim_omega.Common.Dict.{Dict, get-put, get-delete, get-nil}
use vivim_omega.Common.StrSet
use vivim_omega.Common.StrSet.{StrSet, length-add-le, length-delete-le, length-delete-lt}
use vivim_omega.Host.Port.{PortResult, fail, refused, budget}
use vivim_omega.Host.Lanes.{
  Item, Message, Lanes, max_inflight, default_max_inflight, inflight_of, waiting_of, settle,
  dec_inflight, is_expired, insert_item, start, admit_next, release, admit, enqueue, priority_of,
  deliver, on_return, on_timeout,
}

abbrev pub cap_of : Dict ℕ → String → ℕ
cap_of budgets t = or_else (Dict.get t budgets) default_max_inflight

abbrev pub AllFor : String → List Item → Type 0
AllFor t = All (λ i. i.target_id ≡ t)

insert_item-AllFor :
    (t : String) (item : Item) (q : List Item)
    → item.target_id ≡ t
    → AllFor t q
    → AllFor t (insert_item item q)
unfolding insert_item
insert_item-AllFor t item [] e h = (e, tt)
insert_item-AllFor t item (w ∷ q) e h = ground (arith, h.0, h.1, insert_item-AllFor t item q)

module _ {V : Type 0} where
  -- the calls in flight stay within the budget at every compartment, and a call waits in the queue
  -- of its own target
  pub record IsWithin (budgets : Dict ℕ) (s : Lanes V) : Type 0 where
    pub same : s.budgets ≡ budgets
    pub at_target : (t : String) → length (inflight_of s t) ≤ cap_of budgets t
    pub queued : (t : String) → AllFor t (waiting_of s t)

  -- a place is free at `target`
  abbrev HasRoom : Dict ℕ → Lanes V → String → Type 0
  HasRoom budgets s target = length (inflight_of s target) < cap_of budgets target

  inflight-dec :
      (target key t : String) (s : Lanes V)
      → inflight_of (dec_inflight target key s) t
        ≡ (if target == t then StrSet.delete key (inflight_of s t) else inflight_of s t)
  unfolding dec_inflight inflight_of StrSet.delete
  inflight-dec target key t s = elim (Option-cases (Dict.get target s.inflight)) [
    | inl e ↦ ground (arith, e, eq_iff target t)
    | inr (keys, e) ↦
        ground (arith, e, eq_iff target t, get-put target t (StrSet.delete key keys) s.inflight)
  ]

  length-dec-le :
      (target key t : String) (s : Lanes V)
      → length (inflight_of (dec_inflight target key s) t) ≤ length (inflight_of s t)
  length-dec-le target key t s =
      ground (arith, inflight-dec target key t s, length-delete-le key (inflight_of s t))

  length-dec-lt :
      (target key : String) (s : Lanes V)
      → StrSet.has key (inflight_of s target) ≡ true
      → length (inflight_of (dec_inflight target key s) target) < length (inflight_of s target)
  length-dec-lt target key s h = ground (
    arith,
    inflight-dec target key target s,
    length-delete-lt key (inflight_of s target),
    eq_refl target,
  )

  waiting-dec :
      (target key t : String) (s : Lanes V)
      → waiting_of (dec_inflight target key s) t ≡ waiting_of s t
  unfolding dec_inflight waiting_of
  waiting-dec target key t s = ground arith

  dec-IsWithin :
      {b : Dict ℕ} (target key : String) (s : Lanes V)
      → IsWithin b s
      → IsWithin b (dec_inflight target key s)
  dec-IsWithin {b} target key s h = record {
    same = unfold dec_inflight in ground (arith, h.same);
    at_target = λ t. omega (arith, length-dec-le target key t s, h.at_target t);
    queued = λ t. rw (waiting-dec target key t s) (h.queued t);
  }

  start-IsWithin :
      {b : Dict ℕ} (item : Item) (s : Lanes V)
      → IsWithin b s
      → HasRoom b s item.target_id
      → IsWithin b (start item s)
  unfolding start inflight_of waiting_of
  start-IsWithin {b} item s h room = record {
    same = h.same;
    at_target = λ t. ground (
      arith,
      h.at_target t,
      eq_iff item.target_id t,
      get-put item.target_id t (StrSet.add item.msg.causation_id (inflight_of s item.target_id))
          s.inflight,
      length-add-le item.msg.causation_id (inflight_of s item.target_id),
    );
    queued = h.queued;
  }

  pub settle-IsWithin :
      {b : Dict ℕ} (n : ℕ) (r : PortResult V) (s : Lanes V)
      → IsWithin b s
      → IsWithin b (settle n r s)
  unfolding settle inflight_of waiting_of
  settle-IsWithin n r s h = record { same = h.same; at_target = h.at_target; queued = h.queued }

  queue-IsWithin :
      {b : Dict ℕ} (target : String) (q : List Item) (s : Lanes V)
      → AllFor target q
      → IsWithin b s
      → IsWithin b (record s { waiting = Dict.put target q s.waiting })
  unfolding inflight_of waiting_of
  queue-IsWithin target q s for_target h = record {
    same = h.same;
    at_target = h.at_target;
    queued = λ t. elim (Bool-cases (target == t)) [
      | inl e ↦ simp get-put (rw e (subst (λ u. AllFor u q) ((eq_iff target t).0 e) for_target))
      | inr e ↦ simp get-put (rw e (h.queued t))
    ];
  }

  -- room depends on the calls in flight alone
  room-queue :
      (b : Dict ℕ) (target t : String) (q : List Item) (s : Lanes V)
      → HasRoom b s t
      → HasRoom b (record s { waiting = Dict.put target q s.waiting }) t
  unfolding inflight_of
  room-queue b target t q s h = h

  room-settle :
      (b : Dict ℕ) (n : ℕ) (r : PortResult V) (t : String) (s : Lanes V)
      → HasRoom b s t
      → HasRoom b (settle n r s) t
  unfolding inflight_of settle
  room-settle b n r t s h = h

  room-dec :
      (b : Dict ℕ) (target key t : String) (s : Lanes V)
      → HasRoom b s t
      → HasRoom b (dec_inflight target key s) t
  room-dec b target key t s h = omega (arith, length-dec-le target key t s)

  admit_next-IsWithin :
      {b : Dict ℕ} (now : ℕ) (target : String) (q : List Item) (s : Lanes V)
      → AllFor target q
      → IsWithin b s
      → HasRoom b s target
      → IsWithin b (admit_next now target q s)
  unfolding admit_next
  admit_next-IsWithin now target [] s for_target h room = h
  admit_next-IsWithin {b} now target (item ∷ rest) s for_target h room =
      let s' = record s { waiting = Dict.put target rest s.waiting } in
      let h' : IsWithin b s' = queue-IsWithin target rest s for_target.1 h in
      let s2 = settle item.ticket (fail budget) s' in
      let h2 : IsWithin b s2 = settle-IsWithin item.ticket (fail budget) s' h' in
      elim (Bool-cases (is_expired now item)) [
        | inl e ↦ rw e (
            admit_next-IsWithin now target rest (dec_inflight item.target_id "" s2) for_target.1
              (dec-IsWithin item.target_id "" s2 h2)
              (room-dec b item.target_id "" target s2 (
                room-settle b item.ticket (fail budget) target s'
                  (room-queue b target target rest s room))))
        | inr e ↦
            rw e
              (start-IsWithin item s' h' (rw for_target.0 (room-queue b target target rest s room)))
      ]

  release-IsWithin :
      {b : Dict ℕ} (now : ℕ) (target key : String) (s : Lanes V)
      → IsWithin b s
      → HasRoom b (dec_inflight target key s) target
      → IsWithin b (release now target key s)
  unfolding release
  release-IsWithin now target key s h room =
      admit_next-IsWithin now target (waiting_of s target) (dec_inflight target key s)
        (h.queued target) (dec-IsWithin target key s h) room

  admit-IsWithin :
      {b : Dict ℕ} (now : ℕ) (item : Item) (s : Lanes V)
      → IsWithin b s
      → HasRoom b s item.target_id
      → IsWithin b (admit now item s)
  unfolding admit
  admit-IsWithin {b} now item s h room =
      let s' = settle item.ticket (fail budget) s in
      elim (Bool-cases (is_expired now item)) [
        | inl e ↦ rw e (
            release-IsWithin now item.target_id "" s'
              (settle-IsWithin item.ticket (fail budget) s h)
              (room-dec b item.target_id "" item.target_id s'
                (room-settle b item.ticket (fail budget) item.target_id s room)))
        | inr e ↦ rw e (start-IsWithin item s h room)
      ]

  pub max_inflight-cap :
      {b : Dict ℕ} (t : String) (s : Lanes V) → IsWithin b s → max_inflight s t ≡ cap_of b t
  unfolding max_inflight
  max_inflight-cap t s h = ap (λ (m : Dict ℕ). cap_of m t) h.same

  enqueue-IsWithin :
      {b : Dict ℕ} (now : ℕ) (item : Item) (s : Lanes V)
      → IsWithin b s
      → IsWithin b (enqueue now item s)
  unfolding enqueue
  enqueue-IsWithin {b} now item s h =
      elim (Bool-cases
        (ltb (length (inflight_of s item.target_id)) (max_inflight s item.target_id))) [
          | inl e ↦ rw e (
              admit-IsWithin now item s h
                (rw (max_inflight-cap item.target_id s h) at (ltb→lt _ _ e)))
          | inr e ↦ rw e (
              queue-IsWithin item.target_id (insert_item item (waiting_of s item.target_id)) s
                (insert_item-AllFor item.target_id item (waiting_of s item.target_id) refl
                  (h.queued item.target_id))
                h)
        ]

  next-IsWithin :
      {b : Dict ℕ} (s : Lanes V)
      → IsWithin b s
      → IsWithin b (record s { next_ticket = suc s.next_ticket })
  unfolding inflight_of waiting_of
  next-IsWithin s h = record { same = h.same; at_target = h.at_target; queued = h.queued }

  -- the call `key` that `target` holds leaves `pending` and its place is handed on
  done-IsWithin :
      {b : Dict ℕ} (now : ℕ) (target key : String) (s : Lanes V)
      → StrSet.has key (inflight_of s target) ≡ true
      → IsWithin b s
      → IsWithin b (release now target key (record s { pending = Dict.delete key s.pending }))
  unfolding inflight_of waiting_of
  done-IsWithin {b} now target key s held h =
      let s' = record s { pending = Dict.delete key s.pending } in
      let h' : IsWithin b s' = record {
        same = h.same;
        at_target = h.at_target;
        queued = h.queued;
      } in
      release-IsWithin now target key s' h'
        (omega (arith, length-dec-lt target key s' held, h'.at_target target))

  pub deliver-IsWithin :
      {b : Dict ℕ} (now : ℕ) (target : String) (msg : Message) (s : Lanes V)
      → IsWithin b s
      → IsWithin b (deliver now target msg s)
  unfolding deliver
  deliver-IsWithin now target msg s h =
      let s' = record s { next_ticket = suc s.next_ticket } in
      let h' = next-IsWithin s h in
      elim (Bool-cases (StrSet.has target s.compartments)) [
        | inl e ↦ rw e (
            enqueue-IsWithin now
              (record {
                ticket = s.next_ticket;
                target_id = target;
                msg = msg;
                priority = priority_of s' msg.op;
                at = now;
              })
              s' h')
        | inr e ↦ rw e (settle-IsWithin s.next_ticket (fail refused) s' h')
      ]

  pub on_return-IsWithin :
      {b : Dict ℕ} (now : ℕ) (plugin_id key : String) (r : PortResult V) (s : Lanes V)
      → StrSet.has key (inflight_of s plugin_id) ≡ true
      → IsWithin b s
      → IsWithin b (on_return now plugin_id key r s)
  unfolding on_return
  on_return-IsWithin {b} now plugin_id key r s held h =
      elim (Option-cases (Dict.get key s.pending)) [
        | inl e ↦ rw (e, on_return) h
        | inr (p, e) ↦
            rw (e, on_return)
              (settle-IsWithin p.ticket r _ (done-IsWithin now plugin_id key s held h))
      ]

  pub on_timeout-IsWithin :
      {b : Dict ℕ} (now : ℕ) (item : Item) (s : Lanes V)
      → StrSet.has item.msg.causation_id (inflight_of s item.target_id) ≡ true
      → IsWithin b s
      → IsWithin b (on_timeout now item s)
  unfolding on_timeout
  on_timeout-IsWithin {b} now item s held h =
      elim (Bool-cases (Dict.has item.msg.causation_id s.pending)) [
        | inl e ↦ rw e (
            settle-IsWithin item.ticket (fail budget) _
              (done-IsWithin now item.target_id item.msg.causation_id s held h))
        | inr e ↦ rw e h
      ]
