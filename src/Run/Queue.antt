-- ===== src/Run/Queue.antt =====
-- The priority queue, plugins/vivim-run/src/queue.ts. The id of a task is the process's nonce and the
-- number `seq`, of which the model keeps the number. The payload is not read and left out. A deadline
-- hint is `none` if it is absent, not a number or NaN, and else its floor, with 0 for a negative one;
-- numbers beyond the largest deadline are all alike.
use vivim_omega.Common.{
  ℕ, ◌+◌, ◌*◌, ◌-◌, min, max, String, Option, none, some, List, [], ◌∷◌, ◌++◌, ◌==◌, leb,
  if◌then◌else◌, length,
}

pub data Priority : Type 0 where
  high normal low : Priority

abbrev pub default_deadline_ms : ℕ
default_deadline_ms = 5000

abbrev pub min_deadline_ms : ℕ
min_deadline_ms = 1

abbrev pub max_deadline_ms : ℕ
max_deadline_ms = 60000

abbrev pub saturation_factor : ℕ
saturation_factor = 4

-- the text of a priority hint, `none` if it is absent or not a text
unfoldable pub normalize_priority : Option String → Priority
normalize_priority none = normal
normalize_priority (some p) = if p == "high" then high else if p == "low" then low else normal

unfoldable pub clamp_deadline : Option ℕ → ℕ
clamp_deadline none = default_deadline_ms
clamp_deadline (some ms) = min max_deadline_ms (max min_deadline_ms ms)

pub record TaskRequest : Type 0 where
  pub op : String
  pub priority : Option String
  pub deadline_ms : Option ℕ

pub record QueuedTask : Type 0 where
  pub id : ℕ
  pub op : String
  pub priority : Priority
  pub deadline_ms : ℕ
  pub submitted_at : ℕ

-- the three `levels`, one field each
pub record PriorityTaskQueue : Type 0 where
  pub capacity : ℕ
  pub high_level : List QueuedTask
  pub normal_level : List QueuedTask
  pub low_level : List QueuedTask
  pub running_slots : ℕ
  pub seq : ℕ

abbrev pub queued : PriorityTaskQueue → ℕ
queued q = length q.high_level + length q.normal_level + length q.low_level

abbrev pub saturation_limit : PriorityTaskQueue → ℕ
saturation_limit q = q.capacity * saturation_factor

unfoldable pub push : QueuedTask → PriorityTaskQueue → PriorityTaskQueue
push task q = elim task.priority [
  | high ↦ record q { high_level = q.high_level ++ task ∷ []; seq = task.id }
  | normal ↦ record q { normal_level = q.normal_level ++ task ∷ []; seq = task.id }
  | low ↦ record q { low_level = q.low_level ++ task ∷ []; seq = task.id }
]

abbrev pub new_task : ℕ → TaskRequest → PriorityTaskQueue → QueuedTask
new_task now req q = record {
  id = q.seq + 1;
  op = req.op;
  priority = normalize_priority req.priority;
  deadline_ms = clamp_deadline req.deadline_ms;
  submitted_at = now;
}

-- `none` is the saturation rejection
unfoldable pub submit :
    ℕ → TaskRequest → PriorityTaskQueue → Option (QueuedTask × PriorityTaskQueue)
unfolding push
submit now req q =
    if leb (saturation_limit q) (queued q + q.running_slots)
    then none
    else some (new_task now req q, push (new_task now req q) q)

unfoldable pub take : PriorityTaskQueue → Option (QueuedTask × PriorityTaskQueue)
take q = elim q.high_level [
  | task ∷ rest ↦ some (task, record q { high_level = rest; running_slots = q.running_slots + 1 })
  | [] ↦ elim q.normal_level [
    | task ∷ rest ↦
        some (task, record q { normal_level = rest; running_slots = q.running_slots + 1 })
    | [] ↦ elim q.low_level [
      | task ∷ rest ↦
          some (task, record q { low_level = rest; running_slots = q.running_slots + 1 })
      | [] ↦ none
    ]
  ]
]

-- the subtraction stops at 0, as its guard says
unfoldable pub finish : PriorityTaskQueue → PriorityTaskQueue
finish q = record q { running_slots = q.running_slots - 1 }
