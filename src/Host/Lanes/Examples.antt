-- ===== src/Host/Lanes/Examples.antt =====
-- Deliveries of host/src/ports.ts at concrete inputs: one compartment with a budget of one call.
use vivim_omega.Common.{
  ℕ, ◌≤◌, String, ◌≡◌, refl, false, List, [], ◌∷◌, ◌++◌, arith, length, text_ne, ◌==◌, eq_iff,
  Bool-cases, inl, inr,
}
use vivim_omega.Common.Dict
use vivim_omega.Common.Dict.{Dict}
use vivim_omega.Host.Port.{PortResult, ok}
use vivim_omega.Host.Lanes.{
  Priority, gate, normal, Message, Item, Lanes, max_inflight, inflight_of, waiting_of, deliver,
  on_return, insert_item, release, fail_inflight,
}
use vivim_omega.Host.Lanes.Order.{GatesFirst, of_class, keep, insert_item_order}
use vivim_omega.Host.Lanes.Capacity.{IsWithin}
use vivim_omega.Host.Lanes.Events.{Reach, here, next, delivers, inflight_bounded}
use vivim_omega.Host.Lanes.Expiry.{release_lem, live_part, posts, behind, expired_answers}
use vivim_omega.Host.Lanes.Forgery.{forged_return}
use vivim_omega.Host.Lanes.Crash.{IsCleared, crash_lem}

abbrev vault : String
vault = "vivim.vault"

abbrev evil : String
evil = "vivim.evil"

abbrev call : String → ℕ → Message
call key deadline_ms = record {
  causation_id = key;
  op = "vault.get@1";
  deadline_ms = deadline_ms;
  sender = "vivim.run";
}

abbrev item_of : ℕ → Priority → ℕ → Item
item_of ticket priority deadline_ms = record {
  ticket = ticket;
  target_id = vault;
  msg = call "c_9" deadline_ms;
  priority = priority;
  at = 0;
}

abbrev budgets : Dict ℕ
budgets = (vault, 1) ∷ []

abbrev idle : Lanes String
idle = record {
  compartments = vault ∷ evil ∷ [];
  budgets = budgets;
  op_priority = [];
  pending = [];
  inflight = [];
  waiting = [];
  delivered = [];
  next_ticket = 0;
  posted = [];
  settled = [];
}

idle-IsWithin : IsWithin budgets idle
unfolding inflight_of waiting_of Dict.get
idle-IsWithin = record { same = refl; at_target = λ t. omega arith; queued = λ t. tt }

-- one call in flight, one queued
abbrev two_calls : Lanes String
two_calls = deliver 1 vault (call "c_2" 5) (deliver 0 vault (call "c_1" 0) idle)

two_calls-Reach : Reach idle two_calls
two_calls-Reach =
    next (next here (delivers 0 vault (call "c_1" 0))) (delivers 1 vault (call "c_2" 5))

inflight_bounded_example : length (inflight_of two_calls vault) ≤ max_inflight two_calls vault
inflight_bounded_example = inflight_bounded idle-IsWithin two_calls-Reach vault

insert_item_order_example :
    GatesFirst (insert_item (item_of 2 gate 0) (item_of 1 normal 0 ∷ []))
    × ((p : Priority)
        → of_class p (insert_item (item_of 2 gate 0) (item_of 1 normal 0 ∷ []))
          ≡ of_class p (item_of 1 normal 0 ∷ []) ++ keep p (item_of 2 gate 0) [])
insert_item_order_example =
    insert_item_order (item_of 2 gate 0) (item_of 1 normal 0 ∷ []) ((λ e. tt), tt)

-- an expired call in front of one without a deadline
abbrev queued_calls : Lanes String
queued_calls = record idle {
  inflight = (vault, "c_1" ∷ []) ∷ [];
  pending = ("c_1", record { ticket = 0; timed = false }) ∷ [];
  waiting = (vault, item_of 1 normal 5 ∷ item_of 2 normal 0 ∷ []) ∷ [];
}

queued_calls-IsWithin : IsWithin budgets queued_calls
unfolding inflight_of waiting_of Dict.get
queued_calls-IsWithin = record {
  same = refl;
  at_target = λ t. ground (arith, eq_iff vault t);
  queued = λ t. elim (Bool-cases (vault == t)) [
    | inl e ↦ rw e ((eq_iff vault t).0 e, ((eq_iff vault t).0 e, tt))
    | inr e ↦ rw e tt
  ];
}

release_lem_example :
    let q = waiting_of queued_calls vault in
    ((release 7 vault "c_1" queued_calls).posted ≡ posts (live_part 7 q) ++ [])
    × ((release 7 vault "c_1" queued_calls).settled ≡ expired_answers 7 q [])
    × (waiting_of (release 7 vault "c_1" queued_calls) vault ≡ behind (live_part 7 q))
release_lem_example = release_lem 7 vault "c_1" queued_calls

-- what that comes to
release_posts : (release 7 vault "c_1" queued_calls).posted ≡ (vault, call "c_9" 0) ∷ []
unfolding release Dict.get Dict.put
release_posts = refl

forged_return_example :
    ((rest : List (ℕ × PortResult String)) × ((on_return 7 evil "c_1"
          (ok "forged")
          queued_calls).settled
        ≡ (0, ok "forged") ∷ rest))
    × (inflight_of (on_return 7 evil "c_1" (ok "forged") queued_calls) vault
        ≡ inflight_of queued_calls vault)
unfolding Dict.get
forged_return_example =
    forged_return 7 evil vault "c_1" (record { ticket = 0; timed = false }) (ok "forged")
      queued_calls queued_calls-IsWithin (text_ne evil vault refl) refl

crash_lem_example : IsCleared vault queued_calls (fail_inflight vault queued_calls)
crash_lem_example = crash_lem vault queued_calls
