-- ===== src/Run/Pool/Conserve.antt =====
-- The accounts of a pool and one step of it, plugins/vivim-run/src/pool.ts.
use mathlib.Core.Path.{subst}
use vivim_omega.Common.{
  ℕ, zero, suc, ◌+◌, ◌*◌, ◌≤◌, ◌<◌, ◌≡◌, ◌⊎◌, refl, none, some, List, [], ◌∷◌, ◌++◌, ◌==◌, arith,
  ltb, leb, length, length-append, Bool-cases, Option-cases, inl, inr,
}
use vivim_omega.Host.Port.{PortResult, fail, budget}
use vivim_omega.Run.Queue
use vivim_omega.Run.Queue.{
  Priority, TaskRequest, QueuedTask, PriorityTaskQueue, queued, new_task, push, take, finish,
  clamp_deadline, saturation_limit,
}
use vivim_omega.Run.Pool.{
  TaskPool, TaskStatus, Readings, Counts, status_for, count_status, find_task, drop_task,
  is_expired, task_result, complete, pump, submit, answered,
}

abbrev pub new : {V : Type 0} → ℕ → TaskPool V
new capacity = record {
  queue = record {
    capacity = capacity;
    high_level = [];
    normal_level = [];
    low_level = [];
    running_slots = 0;
    seq = 0;
  };
  executing = [];
  counts = record { completed = 0; ok_count = 0; timeouts = 0; errors = 0; rejected = 0 };
  results = [];
}

pub record IsSound {V : Type 0} (capacity : ℕ) (p : TaskPool V) : Type 0 where
  pub same_capacity : p.queue.capacity ≡ capacity
  pub slots_are_tasks : p.queue.running_slots ≡ length p.executing
  pub within_capacity : p.queue.running_slots ≤ capacity
  pub within_limit : queued p.queue + p.queue.running_slots ≤ 4 * capacity
  pub none_lost : p.queue.seq ≡ length p.results + queued p.queue + length p.executing
  pub all_counted : length p.results ≡ p.counts.ok_count + p.counts.timeouts + p.counts.errors
  pub completed_counted : p.counts.completed ≡ length p.results

-- no slot is free while a task waits
abbrev pub IsBusy : {V : Type 0} → TaskPool V → Type 0
IsBusy p = (queued p.queue ≡ 0) ⊎ (p.queue.capacity ≤ p.queue.running_slots)

pub take-none : (q : PriorityTaskQueue) → take q ≡ none → queued q ≡ 0
unfolding take
take-none q h = ground (arith, h)

pub take-some :
    (q q' : PriorityTaskQueue) (task : QueuedTask)
    → take q ≡ some (task, q')
    → (queued q ≡ queued q' + 1)
      × (q'.running_slots ≡ q.running_slots + 1)
      × (q'.capacity ≡ q.capacity)
      × (q'.seq ≡ q.seq)
unfolding take
take-some q q' task h = ground (arith, h)

count_status_lem :
    (st : TaskStatus) (c : Counts)
    → ((count_status st c).completed ≡ c.completed + 1)
      × ((count_status st c).ok_count + (count_status st c).timeouts + (count_status st c).errors
          ≡ c.ok_count + c.timeouts + c.errors + 1)
unfolding count_status
count_status_lem st c = ground arith

push_lem :
    (task : QueuedTask) (q : PriorityTaskQueue)
    → (queued (push task q) ≡ queued q + 1)
      × ((push task q).running_slots ≡ q.running_slots)
      × ((push task q).capacity ≡ q.capacity)
      × ((push task q).seq ≡ task.id)
unfolding push
push_lem task q = ground (
  arith,
  length-append q.high_level (task ∷ []),
  length-append q.normal_level (task ∷ []),
  length-append q.low_level (task ∷ []),
)

drop_task_lem :
    (id : ℕ) (tasks : List QueuedTask) (task : QueuedTask)
    → find_task id tasks ≡ some task
    → length tasks ≡ length (drop_task id tasks) + 1
unfolding find_task drop_task
drop_task_lem id [] task h = ground (arith, h)
drop_task_lem id (x ∷ xs) task h = ground (arith, h, drop_task_lem id xs task)

module _ {V : Type 0} where
  complete_lem :
      (capacity : ℕ) (p : TaskPool V) (q' : PriorityTaskQueue) (rest : List QueuedTask)
      (task : QueuedTask) (at : Readings) (r : PortResult V)
      → IsSound capacity p
      → q'.capacity ≡ capacity
      → q'.running_slots ≡ length rest + 1
      → length rest + 1 ≤ capacity
      → queued q' + length rest + 1 ≤ 4 * capacity
      → p.queue.seq ≡ q'.seq
      → p.queue.seq ≡ length p.results + queued q' + length rest + 1
      → IsSound capacity (complete task at r (record p { queue = q'; executing = rest }))
  unfolding complete finish
  complete_lem capacity p q' rest task at r h hc hr hl hq hs hn =
      let c = count_status_lem (status_for r) p.counts in
      let rows = length-append p.results (task_result task at r ∷ []) in
      record {
        same_capacity = hc;
        slots_are_tasks = omega (arith, hr);
        within_capacity = omega (arith, hr, hl);
        within_limit = omega (arith, hr, hq);
        none_lost = omega (arith, rows, hs, hn);
        all_counted = omega (arith, rows, c, h.all_counted);
        completed_counted = omega (arith, rows, c, h.completed_counted);
      }

  begin_lem :
      (capacity : ℕ) (p : TaskPool V) (q : PriorityTaskQueue) (task : QueuedTask)
      → IsSound capacity p
      → (queued p.queue ≡ queued q + 1)
        × (q.running_slots ≡ p.queue.running_slots + 1)
        × (q.capacity ≡ p.queue.capacity)
        × (q.seq ≡ p.queue.seq)
      → p.queue.running_slots < capacity
      → IsSound capacity (record p { queue = q; executing = p.executing ++ task ∷ [] })
  begin_lem capacity p q task h t low =
      let tasks = length-append p.executing (task ∷ []) in
      record {
        same_capacity = omega (arith, t, h.same_capacity);
        slots_are_tasks = omega (arith, t, tasks, h.slots_are_tasks);
        within_capacity = omega (arith, t, low);
        within_limit = omega (arith, t, h.within_limit);
        none_lost = omega (arith, t, tasks, h.none_lost);
        all_counted = h.all_counted;
        completed_counted = h.completed_counted;
      }

  pump-IsSound :
      (clock : QueuedTask → Readings) (fuel capacity : ℕ) (p : TaskPool V)
      → IsSound capacity p
      → IsSound capacity (pump clock fuel p)
  unfolding pump
  pump-IsSound clock zero capacity p h = h
  pump-IsSound clock (suc fuel) capacity p h =
      elim (Bool-cases (ltb p.queue.running_slots p.queue.capacity)) [
        | inr full ↦ rw (full, pump) h
        | inl free ↦ elim (Option-cases (take p.queue)) [
          | inl e ↦ rw (free, pump) (rw e h)
          | inr ((task, q), e) ↦
              let t = take-some p.queue q task e in
              let low : p.queue.running_slots < capacity = ground (arith, free, h.same_capacity) in
              elim (Bool-cases (is_expired task (clock task))) [
                | inl late ↦
                    rw (free, pump)
                      (rw e (
                        rw late (
                          pump-IsSound clock fuel capacity _ (
                            pump-IsSound clock fuel capacity _ (
                              complete_lem capacity p q p.executing task (clock task) (fail budget)
                                h (omega (arith, t, h.same_capacity))
                                (omega (arith, t, h.slots_are_tasks))
                                (omega (arith, low, h.slots_are_tasks))
                                (omega (arith, t, h.within_limit, h.slots_are_tasks))
                                (omega (arith, t)) (omega (arith, t, h.none_lost)))))))
                | inr fine ↦
                    rw (free, pump)
                      (rw e (
                        rw fine (
                          pump-IsSound clock fuel capacity _
                            (begin_lem capacity p q task h t low))))
              ]
        ]
      ]

  push-IsSound :
      (capacity : ℕ) (p : TaskPool V) (task : QueuedTask)
      → IsSound capacity p
      → task.id ≡ p.queue.seq + 1
      → queued p.queue + p.queue.running_slots < 4 * capacity
      → IsSound capacity (record p { queue = push task p.queue })
  push-IsSound capacity p task h fresh room =
      let t = push_lem task p.queue in
      record {
        same_capacity = omega (arith, t, h.same_capacity);
        slots_are_tasks = omega (arith, t, h.slots_are_tasks);
        within_capacity = omega (arith, t, h.within_capacity);
        within_limit = omega (arith, t, room);
        none_lost = omega (arith, t, fresh, h.none_lost);
        all_counted = h.all_counted;
        completed_counted = h.completed_counted;
      }

  pub submit-IsSound :
      (now capacity : ℕ) (clock : QueuedTask → Readings) (req : TaskRequest) (p : TaskPool V)
      → IsSound capacity p
      → IsSound capacity (submit now clock req p).0
  unfolding submit Queue.submit
  submit-IsSound now capacity clock req p h = elim (Bool-cases (req.op == "")) [
    | inl e ↦ rw (e, submit) h
    | inr e ↦
        elim (Bool-cases
          (leb (saturation_limit p.queue) (queued p.queue + p.queue.running_slots))) [
            | inl full ↦
                rw (e, submit)
                  (rw full (record {
                    same_capacity = h.same_capacity;
                    slots_are_tasks = h.slots_are_tasks;
                    within_capacity = h.within_capacity;
                    within_limit = h.within_limit;
                    none_lost = h.none_lost;
                    all_counted = h.all_counted;
                    completed_counted = h.completed_counted;
                  }))
            | inr free ↦
                rw (e, submit)
                  (rw free (
                    let req' : TaskRequest = record req {
                      deadline_ms = some (clamp_deadline req.deadline_ms);
                    } in
                    let task = new_task now req' p.queue in
                    pump-IsSound clock (queued (push task p.queue)) capacity
                      (record p { queue = push task p.queue })
                      (push-IsSound capacity p task h refl
                        (ground (arith, free, h.same_capacity)))))
          ]
  ]

  pub answered-found :
      (clock : QueuedTask → Readings) (id : ℕ) (at : Readings) (r : PortResult V) (p : TaskPool V)
      (task : QueuedTask)
      → find_task id p.executing ≡ some task
      → let p' : TaskPool V =
          complete task at r (record p { executing = drop_task id p.executing }) in
        answered clock id at r p ≡ some (pump clock (queued p'.queue) p')
  unfolding answered
  answered-found clock id at r p task found = rw (found, answered) refl

  pub answered-missing :
      (clock : QueuedTask → Readings) (id : ℕ) (at : Readings) (r : PortResult V) (p : TaskPool V)
      → find_task id p.executing ≡ none
      → answered clock id at r p ≡ none
  unfolding answered
  answered-missing clock id at r p e = rw (e, answered) refl

  pub answered-IsSound :
      (clock : QueuedTask → Readings) (id capacity : ℕ) (at : Readings) (r : PortResult V)
      (p p' : TaskPool V)
      → IsSound capacity p
      → answered clock id at r p ≡ some p'
      → IsSound capacity p'
  unfolding answered
  answered-IsSound clock id capacity at r p p' h e =
      elim (Option-cases (find_task id p.executing)) [
        | inl none_found ↦ ground (arith, e, none_found)
        | inr (task, found) ↦
            let d = drop_task_lem id p.executing task found in
            let s : IsSound capacity
                (complete task at r (record p { executing = drop_task id p.executing })) =
              complete_lem capacity p p.queue (drop_task id p.executing) task at r h h.same_capacity
                (omega (arith, d, h.slots_are_tasks))
                (omega (arith, d, h.slots_are_tasks, h.within_capacity))
                (omega (arith, d, h.slots_are_tasks, h.within_limit)) refl
                (omega (arith, d, h.none_lost)) in
            let p'' : TaskPool V =
              complete task at r (record p { executing = drop_task id p.executing }) in
            let e' : pump clock (queued p''.queue) p'' ≡ p' =
              cc (e, answered-found clock id at r p task found) in
            subst (IsSound capacity) e' (pump-IsSound clock (queued p''.queue) capacity p'' s)
      ]
