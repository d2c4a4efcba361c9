-- ===== src/Host/Lanes.antt =====
-- Delivery to the compartments, host/src/ports.ts: `deliver`, `enqueue`, `admit`, `release`, the
-- `return` message, the deadline timer and `failInflight`. A promise is its number, its ticket; what
-- it was resolved with stands in `settled`, and what was posted to a worker in `posted`, both newest
-- first. The payload of a message is relayed and never read, so it is left out. `Date.now()` is the
-- argument `now`, and the clock does not go back.
pub mod Order
pub mod Capacity
pub mod Events
pub mod Expiry
pub mod Forgery
pub mod Crash
mod Examples
use vivim_omega.Common.{
  ℕ, zero, suc, ◌+◌, ◌-◌, String, ◌≡◌, Bool, true, false, not, ◌&&◌, Option, none, some, List, [],
  ◌∷◌, ◌++◌, ◌==◌, ltb, leb, if◌then◌else◌, or_else, length,
}
use vivim_omega.Common.Dict
use vivim_omega.Common.Dict.{Dict}
use vivim_omega.Common.StrSet
use vivim_omega.Common.StrSet.{StrSet}
use vivim_omega.Host.Port.{PortResult, fail, refused, budget, degraded}

pub data Priority : Type 0 where
  gate normal : Priority

pub record Message : Type 0 where
  pub causation_id : String
  pub op : String
  pub deadline_ms : ℕ
  pub sender : String

pub record Item : Type 0 where
  pub ticket : ℕ
  pub target_id : String
  pub msg : Message
  pub priority : Priority
  pub at : ℕ

-- an entry of `pending`; `timed` where a timer runs for it
pub record Pending : Type 0 where
  pub ticket : ℕ
  pub timed : Bool

pub record Lanes (V : Type 0) : Type 0 where
  pub compartments : StrSet
  pub budgets : Dict ℕ  -- maxConcurrentCalls, where the manifest gives one
  pub op_priority : Dict Priority
  pub pending : Dict Pending
  pub inflight : Dict StrSet
  pub waiting : Dict (List Item)
  pub delivered : Dict ℕ
  pub next_ticket : ℕ
  pub posted : List (String × Message)
  pub settled : List (ℕ × PortResult V)

abbrev pub default_max_inflight : ℕ
default_max_inflight = 4

-- `item.msg.deadlineMs > 0 && waited >= item.msg.deadlineMs`
unfoldable pub is_expired : ℕ → Item → Bool
is_expired now item = ltb 0 item.msg.deadline_ms && leb (item.at + item.msg.deadline_ms) now

-- `q.splice(idx === -1 ? q.length : idx, 0, item)`
unfoldable pub insert_item : Item → List Item → List Item
insert_item item [] = item ∷ []
insert_item item (w ∷ q) = elim w.priority [
  | normal ↦ elim item.priority [ gate ↦ item ∷ w ∷ q | normal ↦ w ∷ insert_item item q ]
  | gate ↦ w ∷ insert_item item q
]

module _ {V : Type 0} where
  unfoldable pub max_inflight : Lanes V → String → ℕ
  max_inflight s target = or_else (Dict.get target s.budgets) default_max_inflight

  -- `inflightByCompartment.get(id)`, an absent set is empty
  unfoldable pub inflight_of : Lanes V → String → StrSet
  inflight_of s target = or_else (Dict.get target s.inflight) []

  unfoldable pub waiting_of : Lanes V → String → List Item
  waiting_of s target = or_else (Dict.get target s.waiting) []

  unfoldable pub settle : ℕ → PortResult V → Lanes V → Lanes V
  settle ticket result s = record s { settled = (ticket, result) ∷ s.settled }

  unfoldable pub inc_inflight : String → String → Lanes V → Lanes V
  unfolding inflight_of
  inc_inflight target key s = record s {
    inflight = Dict.put target (StrSet.add key (inflight_of s target)) s.inflight;
  }

  unfoldable pub dec_inflight : String → String → Lanes V → Lanes V
  dec_inflight target key s = elim (Dict.get target s.inflight) [
    | none ↦ s
    | some keys ↦ record s { inflight = Dict.put target (StrSet.delete key keys) s.inflight }
  ]

  -- the part of `admit` behind the deadline test
  unfoldable pub start : Item → Lanes V → Lanes V
  unfolding inc_inflight
  start item s =
      let key = item.msg.causation_id in
      inc_inflight item.target_id key (record s {
        delivered =
            Dict.put item.target_id (suc (or_else (Dict.get item.target_id s.delivered) 0))
              s.delivered;
        pending =
            Dict.put key (record { ticket = item.ticket; timed = ltb 0 item.msg.deadline_ms })
              s.pending;
        posted = (item.target_id, item.msg) ∷ s.posted;
      })

  -- `waiting.get(targetId)?.shift()` and `admit`: an expired item is settled and releases the next
  unfoldable pub admit_next : ℕ → String → List Item → Lanes V → Lanes V
  unfolding settle dec_inflight is_expired start
  admit_next now target [] s = s
  admit_next now target (item ∷ rest) s =
      let s' = record s { waiting = Dict.put target rest s.waiting } in
      let later =
        admit_next now target rest
          (dec_inflight item.target_id "" (settle item.ticket (fail budget) s')) in
      if is_expired now item then later else start item s'

  unfoldable pub release : ℕ → String → String → Lanes V → Lanes V
  unfolding admit_next waiting_of
  release now target key s = admit_next now target (waiting_of s target) (dec_inflight target key s)

  unfoldable pub admit : ℕ → Item → Lanes V → Lanes V
  unfolding release
  admit now item s =
      if is_expired now item
      then release now item.target_id "" (settle item.ticket (fail budget) s)
      else start item s

  unfoldable pub enqueue : ℕ → Item → Lanes V → Lanes V
  unfolding max_inflight inflight_of waiting_of admit insert_item
  enqueue now item s =
      if ltb (length (inflight_of s item.target_id)) (max_inflight s item.target_id)
      then admit now item s
      else record s {
        waiting =
            Dict.put item.target_id (insert_item item (waiting_of s item.target_id)) s.waiting;
      }

  unfoldable pub priority_of : Lanes V → String → Priority
  priority_of s op = elim (Dict.get op s.op_priority) [
    | some p ↦ p
    | none ↦ if op == "law.check@1" then gate else normal
  ]

  unfoldable pub deliver : ℕ → String → Message → Lanes V → Lanes V
  unfolding enqueue priority_of
  deliver now target msg s =
      let ticket = s.next_ticket in
      let s' = record s { next_ticket = suc ticket } in
      if not (StrSet.has target s.compartments)
      then settle ticket (fail refused) s'
      else enqueue now
          (record {
            ticket = ticket;
            target_id = target;
            msg = msg;
            priority = priority_of s msg.op;
            at = now;
          })
          s'

  -- the `return` message of compartment `plugin_id`
  unfoldable pub on_return : ℕ → String → String → PortResult V → Lanes V → Lanes V
  unfolding release
  on_return now plugin_id key result s = elim (Dict.get key s.pending) [
    | none ↦ s
    | some p ↦
        settle p.ticket result
          (release now plugin_id key (record s { pending = Dict.delete key s.pending }))
  ]

  -- the timer that `admit` set for an item runs out
  unfoldable pub on_timeout : ℕ → Item → Lanes V → Lanes V
  unfolding release
  on_timeout now item s =
      let key = item.msg.causation_id in
      if Dict.has key s.pending
      then settle item.ticket (fail budget)
          (release now item.target_id key (record s { pending = Dict.delete key s.pending }))
      else s

  unfoldable pub settle_all : List Item → PortResult V → Lanes V → Lanes V
  unfolding settle
  settle_all [] result s = s
  settle_all (item ∷ rest) result s = settle_all rest result (settle item.ticket result s)

  unfoldable pub fail_keys : StrSet → Lanes V → Lanes V
  unfolding settle
  fail_keys [] s = s
  fail_keys (key ∷ keys) s = fail_keys keys (elim (Dict.get key s.pending) [
    | none ↦ s
    | some p ↦ settle p.ticket (fail degraded) (record s { pending = Dict.delete key s.pending })
  ])

  -- a crash, or host op compartmentTerminate
  unfoldable pub fail_inflight : String → Lanes V → Lanes V
  unfolding settle_all fail_keys waiting_of
  fail_inflight plugin_id s =
      let s1 = settle_all (waiting_of s plugin_id) (fail degraded) s in
      let s2 = record s1 { waiting = Dict.delete plugin_id s1.waiting } in
      elim (Dict.get plugin_id s.inflight) [
        | none ↦ s2
        | some keys ↦
            let s3 = fail_keys keys s2 in record s3 { inflight = Dict.put plugin_id [] s3.inflight }
      ]
