-- ===== src/Host/Lanes/Crash.antt =====
-- The crash of a compartment, `failInflight` of host/src/ports.ts.
use mathlib.Core.List.{Memᴰ}
use vivim_omega.Common.{
  ℕ, String, ◌≡◌, ◌≢◌, refl, true, none, some, List, [], ◌∷◌, ◌==◌, eq_iff, eq_refl, arith,
  if◌then◌else◌, Bool-cases, Option-cases, inl, inr, ==_ne, All,
}
use vivim_omega.Common.Dict
use vivim_omega.Common.Dict.{Dict, get-put, get-delete}
use vivim_omega.Common.StrSet
use vivim_omega.Common.StrSet.{StrSet}
use vivim_omega.Host.Port.{PortResult, fail, degraded}
use vivim_omega.Host.Lanes.{
  Item, Pending, Lanes, inflight_of, waiting_of, settle, settle_all, fail_keys, fail_inflight,
}

module _ {V : Type 0} where
  -- the answers to the items of a queue, newest first
  unfoldable pub answers : List Item → List (ℕ × PortResult V) → List (ℕ × PortResult V)
  answers [] settled = settled
  answers (item ∷ q) settled = answers q ((item.ticket, fail degraded) ∷ settled)

  settled-settle_all :
      (q : List Item) (s : Lanes V) → (settle_all q (fail degraded) s).settled ≡ answers q s.settled
  unfolding settle_all answers
  settled-settle_all [] s = refl
  settled-settle_all (item ∷ q) s = settled-settle_all q (settle item.ticket (fail degraded) s)

  -- `settle_all` writes nothing but the answers
  settle_all-frame :
      (q : List Item) (r : PortResult V) (s : Lanes V)
      → ((settle_all q r s).pending ≡ s.pending)
        × ((settle_all q r s).inflight ≡ s.inflight)
        × ((settle_all q r s).waiting ≡ s.waiting)
  unfolding settle_all
  settle_all-frame [] r s = (refl, refl, refl)
  settle_all-frame (item ∷ q) r s = settle_all-frame q r (settle item.ticket r s)

  fail_keys-frame :
      (keys : StrSet) (s : Lanes V)
      → ((fail_keys keys s).inflight ≡ s.inflight) × ((fail_keys keys s).waiting ≡ s.waiting)
  unfolding fail_keys
  fail_keys-frame [] s = (refl, refl)
  fail_keys-frame (key ∷ keys) s = elim (Option-cases (Dict.get key s.pending)) [
    | inl e ↦ rw (e, fail_keys) (fail_keys-frame keys s)
    | inr (p, e) ↦
        rw (e, fail_keys)
          (fail_keys-frame keys
            (settle p.ticket (fail degraded) (record s { pending = Dict.delete key s.pending })))
  ]

  -- after `fail_keys` none of the keys is pending, and the other keys are as before
  pending-fail_keys :
      (keys : StrSet) (key : String) (s : Lanes V)
      → Dict.get key (fail_keys keys s).pending
        ≡ (if StrSet.has key keys then none else Dict.get key s.pending)
  unfolding fail_keys StrSet.has
  pending-fail_keys [] key s = refl
  pending-fail_keys (k ∷ keys) key s = elim (Option-cases (Dict.get k s.pending)) [
    | inl e ↦ rw (e, fail_keys) (ground (arith, pending-fail_keys keys key s, e, eq_iff k key))
    | inr (p, e) ↦
        rw (e, fail_keys)
          (ground (
            arith,
            pending-fail_keys keys key
                (settle p.ticket (fail degraded) (record s { pending = Dict.delete k s.pending })),
            get-delete k key s.pending,
          ))
  ]

  mem-fail_keys :
      {x : ℕ × PortResult V} (keys : StrSet) (s : Lanes V)
      → Memᴰ x s.settled
      → Memᴰ x (fail_keys keys s).settled
  unfolding fail_keys
  mem-fail_keys [] s h = h
  mem-fail_keys (key ∷ keys) s h = elim (Option-cases (Dict.get key s.pending)) [
    | inl e ↦ rw (e, fail_keys) (mem-fail_keys keys s h)
    | inr (p, e) ↦ rw (e, fail_keys) (mem-fail_keys keys _ (Memᴰ.tail h))
  ]

  answered-fail_keys :
      (keys : StrSet) (key : String) (p : Pending) (s : Lanes V)
      → StrSet.has key keys ≡ true
      → Dict.get key s.pending ≡ some p
      → Memᴰ (p.ticket, fail degraded) (fail_keys keys s).settled
  unfolding fail_keys StrSet.has
  answered-fail_keys [] key p s h e = cc
  answered-fail_keys (k ∷ keys) key p s h e = elim (Option-cases (Dict.get k s.pending)) [
    | inl absent ↦
        rw (absent, fail_keys)
          (answered-fail_keys keys key p s (ground (arith, h, e, absent, eq_iff k key)) e)
    | inr (q, found) ↦
        rw (found, fail_keys)
          (elim (Bool-cases (k == key)) [
            | inl same ↦
                mem-fail_keys keys _ (Memᴰ.head (ground (arith, e, found, (eq_iff k key).0 same)))
            | inr other ↦
                answered-fail_keys keys key p _ (ground (arith, h, other))
                  (simp get-delete (ground (arith, other, e)))
          ])
  ]

  mem-settle_all :
      {x : ℕ × PortResult V} (q : List Item) (r : PortResult V) (s : Lanes V)
      → Memᴰ x s.settled
      → Memᴰ x (settle_all q r s).settled
  unfolding settle_all
  mem-settle_all [] r s h = h
  mem-settle_all (item ∷ q) r s h = mem-settle_all q r _ (Memᴰ.tail h)

  -- every item of the queue has its DEGRADED answer among `settled`
  abbrev pub Answered : List (ℕ × PortResult V) → List Item → Type 0
  Answered settled = All (λ (i : Item). Memᴰ (i.ticket, fail degraded) settled)

  Answered-mono :
      {a b : List (ℕ × PortResult V)} (q : List Item)
      → ((x : ℕ × PortResult V) → Memᴰ x a → Memᴰ x b)
      → Answered a q
      → Answered b q
  Answered-mono [] f h = tt
  Answered-mono (item ∷ q) f h = (f _ h.0, Answered-mono q f h.1)

  Answered-settle_all :
      (q : List Item) (s : Lanes V) → Answered (settle_all q (fail degraded) s).settled q
  unfolding settle_all
  Answered-settle_all [] s = tt
  Answered-settle_all (item ∷ q) s =
      let s' = settle item.ticket (fail degraded) s in
      (mem-settle_all q (fail degraded) s' (Memᴰ.head refl), Answered-settle_all q s')

  -- what the compartment owed before, and what it owes after the crash
  pub record IsCleared (plugin_id : String) (s t : Lanes V) : Type 0 where
    pub no_inflight : inflight_of t plugin_id ≡ []
    pub no_waiting : waiting_of t plugin_id ≡ []
    pub pending_after :
        (key : String)
        → Dict.get key t.pending
          ≡ (if StrSet.has key (inflight_of s plugin_id) then none else Dict.get key s.pending)
    pub inflight_answered :
        (key : String) (p : Pending)
        → StrSet.has key (inflight_of s plugin_id) ≡ true
        → Dict.get key s.pending ≡ some p
        → Memᴰ (p.ticket, fail degraded) t.settled
    pub waiting_answered : Answered t.settled (waiting_of s plugin_id)
    pub others :
        (u : String)
        → plugin_id ≢ u
        → (inflight_of t u ≡ inflight_of s u) × (waiting_of t u ≡ waiting_of s u)

  -- the queue dropped, no call in flight
  idle-IsCleared :
      (plugin_id : String) (s : Lanes V)
      → Dict.get plugin_id s.inflight ≡ none
      → let s1 = settle_all (waiting_of s plugin_id) (fail degraded) s in
        IsCleared plugin_id s (record s1 { waiting = Dict.delete plugin_id s1.waiting })
  unfolding inflight_of waiting_of StrSet.has
  idle-IsCleared plugin_id s e =
      let q = waiting_of s plugin_id in
      let f = settle_all-frame q (fail degraded) s in
      let s1 = settle_all q (fail degraded) s in
      record {
        no_inflight = ground (arith, e, f.1);
        no_waiting = simp (get-delete, eq_refl);
        pending_after = λ key. ground (arith, e, f.0);
        inflight_answered = λ key p h g. absurd (ground (arith, e, h));
        waiting_answered = Answered-settle_all q s;
        others = λ u ne.
            (ground (arith, f.1), simp get-delete (ground (arith, f.2, ==_ne plugin_id u ne)));
      }

  busy-IsCleared :
      (plugin_id : String) (keys : StrSet) (s : Lanes V)
      → Dict.get plugin_id s.inflight ≡ some keys
      → let s1 = settle_all (waiting_of s plugin_id) (fail degraded) s in
        let s3 = fail_keys keys (record s1 { waiting = Dict.delete plugin_id s1.waiting }) in
        IsCleared plugin_id s (record s3 { inflight = Dict.put plugin_id [] s3.inflight })
  unfolding inflight_of waiting_of
  busy-IsCleared plugin_id keys s e =
      let q = waiting_of s plugin_id in
      let f = settle_all-frame q (fail degraded) s in
      let s1 = settle_all q (fail degraded) s in
      let s2 = record s1 { waiting = Dict.delete plugin_id s1.waiting } in
      let g = fail_keys-frame keys s2 in
      record {
        no_inflight = simp (get-put, eq_refl);
        no_waiting = rw g.1 (simp (get-delete, eq_refl));
        pending_after = λ key. ground (arith, e, f.0, pending-fail_keys keys key s2);
        inflight_answered = λ key p h pend.
            answered-fail_keys keys key p s2 (ground (arith, h, e)) (ground (arith, pend, f.0));
        waiting_answered =
            Answered-mono q (λ x m. mem-fail_keys keys s2 m) (Answered-settle_all q s);
        others = λ u ne. (
          simp get-put (ground (arith, f.1, g.0, ==_ne plugin_id u ne)),
          rw g.1 (simp get-delete (ground (arith, f.2, ==_ne plugin_id u ne))),
        );
      }

  -- When a compartment crashes or is terminated, each call waiting for it and each call in flight
  -- at it is answered DEGRADED; nothing of it stays queued, in flight or pending; and the queues
  -- and calls of the other compartments, and the other pending calls, are as they were.
  pub crash_lem :
      (plugin_id : String) (s : Lanes V) → IsCleared plugin_id s (fail_inflight plugin_id s)
  unfolding fail_inflight
  crash_lem plugin_id s = elim (Option-cases (Dict.get plugin_id s.inflight)) [
    | inl e ↦ rw (e, fail_inflight) (idle-IsCleared plugin_id s e)
    | inr (keys, e) ↦ rw (e, fail_inflight) (busy-IsCleared plugin_id keys s e)
  ]
