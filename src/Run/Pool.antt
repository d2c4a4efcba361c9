-- ===== src/Run/Pool.antt =====
-- The pool, plugins/vivim-run/src/pool.ts (`TaskPool`). A task that is being executed and awaits its
-- port call stands in `executing`; the event that its call settles is `answered`. `clock` gives, for a
-- task, what Date.now() answers at the points of `execute`; the clock does not run backwards. A
-- promise that is resolved is a row of `results`.
pub mod Conserve
pub mod Progress
mod Examples
use vivim_omega.Common.{
  ℕ, zero, suc, ◌+◌, ◌*◌, ◌-◌, String, Bool, true, false, not, Option, none, some, List, [], ◌∷◌,
  ◌++◌, ◌==◌, ltb, leb, eqb, if◌then◌else◌, or_else, length,
}
use vivim_omega.Host.Port.{PortError, PortResult, ok, fail, refuse, refused, degraded, budget}
use vivim_omega.Run.Queue
use vivim_omega.Run.Queue.{
  Priority, TaskRequest, QueuedTask, PriorityTaskQueue, queued, take, finish, clamp_deadline,
  normalize_priority,
}

pub data Freshness : Type 0 where
  current lagging stale : Freshness

pub data TaskStatus : Type 0 where
  ok_status timeout error : TaskStatus

unfoldable pub freshness_for : ℕ → ℕ → Freshness
freshness_for deadline_ms elapsed_ms =
    let remaining = deadline_ms - elapsed_ms in
    if ltb deadline_ms (2 * remaining) then current else if ltb 0 remaining then lagging else stale

-- what Date.now() answers when a task leaves the queue, when its call
-- starts and when it has settled
pub record Readings : Type 0 where
  pub dequeue_at : ℕ
  pub start_at : ℕ
  pub settled_at : ℕ

pub record Counts : Type 0 where
  pub completed : ℕ
  pub ok_count : ℕ
  pub timeouts : ℕ
  pub errors : ℕ
  pub rejected : ℕ

module _ {V : Type 0} where
  unfoldable pub status_for : PortResult V → TaskStatus
  status_for (ok v) = ok_status
  status_for (fail budget) = timeout
  status_for (fail e) = error
  status_for (refuse r) = error

pub record TaskResult (V : Type 0) : Type 0 where
  pub task_id : ℕ
  pub op : String
  pub priority : Priority
  pub status : TaskStatus
  pub freshness : Freshness
  pub result : PortResult V
  pub deadline_ms : ℕ
  pub queued_ms : ℕ
  pub exec_ms : ℕ
  pub total_ms : ℕ

pub record TaskPool (V : Type 0) : Type 0 where
  pub queue : PriorityTaskQueue
  pub executing : List QueuedTask
  pub counts : Counts
  pub results : List (TaskResult V)

unfoldable pub count_status : TaskStatus → Counts → Counts
count_status ok_status c = record c { completed = c.completed + 1; ok_count = c.ok_count + 1 }
count_status timeout c = record c { completed = c.completed + 1; timeouts = c.timeouts + 1 }
count_status error c = record c { completed = c.completed + 1; errors = c.errors + 1 }

unfoldable pub find_task : ℕ → List QueuedTask → Option QueuedTask
find_task id [] = none
find_task id (task ∷ tasks) = if eqb task.id id then some task else find_task id tasks

unfoldable pub drop_task : ℕ → List QueuedTask → List QueuedTask
drop_task id [] = []
drop_task id (task ∷ tasks) =
    let rest = drop_task id tasks in if eqb task.id id then tasks else task ∷ rest

-- `queuedMs >= deadlineMs`: the budget burned while queued
abbrev pub is_expired : QueuedTask → Readings → Bool
is_expired task at = leb task.deadline_ms (at.dequeue_at - task.submitted_at)

-- what a submit resolves to at once; an admitted task's promise is pending
pub data Submitted : Type 0 where
  invalid saturated : Submitted
  pending : ℕ → Submitted

module _ {V : Type 0} where
  abbrev pub task_result : QueuedTask → Readings → PortResult V → TaskResult V
  task_result task at result = record {
    task_id = task.id;
    op = task.op;
    priority = task.priority;
    status = status_for result;
    freshness = freshness_for task.deadline_ms (at.settled_at - task.submitted_at);
    result = result;
    deadline_ms = task.deadline_ms;
    queued_ms = at.dequeue_at - task.submitted_at;
    exec_ms = at.settled_at - at.start_at;
    total_ms = at.settled_at - task.submitted_at;
  }

  -- the end of `execute`, up to its `pump`
  unfoldable pub complete : QueuedTask → Readings → PortResult V → TaskPool V → TaskPool V
  unfolding freshness_for status_for count_status finish
  complete task at result p = record p {
    queue = finish p.queue;
    counts = count_status (status_for result) p.counts;
    results = p.results ++ task_result task at result ∷ [];
  }

  -- `pump`, on fuel: a task that expired in the queue is completed at once, and its `execute` pumps
  -- before the loop goes on
  unfoldable pub pump : (QueuedTask → Readings) → ℕ → TaskPool V → TaskPool V
  unfolding complete take
  pump clock zero p = p
  pump clock (suc fuel) p = elim (ltb p.queue.running_slots p.queue.capacity) [
    | false ↦ p
    | true ↦ elim (take p.queue) [
      | none ↦ p
      | some (task, q) ↦ elim (is_expired task (clock task)) [
        | true ↦
            pump clock fuel
              (pump clock fuel (complete task (clock task) (fail budget) (record p { queue = q })))
        | false ↦ pump clock fuel (record p { queue = q; executing = p.executing ++ task ∷ [] })
      ]
    ]
  ]

  unfoldable pub submit :
      ℕ → (QueuedTask → Readings) → TaskRequest → TaskPool V → TaskPool V × Submitted
  unfolding Queue.submit clamp_deadline pump
  submit now clock req p = elim (req.op == "") [
    | true ↦ (p, invalid)
    | false ↦
        elim (Queue.submit now (record req { deadline_ms = some (clamp_deadline req.deadline_ms) })
          p.queue) [
            | none ↦ (
              record p { counts = record p.counts { rejected = p.counts.rejected + 1 } },
              saturated,
            )
            | some (task, q) ↦ (pump clock (queued q) (record p { queue = q }), pending task.id)
          ]
  ]

  -- the call of an executing task settles (a call that throws settles as a failure)
  unfoldable pub answered :
      (QueuedTask → Readings) → ℕ → Readings → PortResult V → TaskPool V → Option (TaskPool V)
  unfolding find_task drop_task complete pump
  answered clock id at result p = elim (find_task id p.executing) [
    | none ↦ none
    | some task ↦
        let p' : TaskPool V =
          complete task at result (record p { executing = drop_task id p.executing }) in
        some (pump clock (queued p'.queue) p')
  ]
