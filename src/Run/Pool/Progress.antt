-- ===== src/Run/Pool/Progress.antt =====
-- The life of a pool, from its construction through submits and settled calls,
-- plugins/vivim-run/src/pool.ts.
use vivim_omega.Common.{
  ℕ, zero, suc, ◌+◌, ◌≤◌, ◌≡◌, refl, some, List, [], ◌∷◌, ◌++◌, ◌==◌, arith, ltb, leb, Bool-cases,
  Option-cases, inl, inr, or_else,
}
use vivim_omega.Host.Port.{PortResult, fail, budget}
use vivim_omega.Run.Queue
use vivim_omega.Run.Queue.{
  Priority, TaskRequest, QueuedTask, PriorityTaskQueue, queued, new_task, push, take, finish,
  clamp_deadline, saturation_limit,
}
use vivim_omega.Run.Pool.{
  TaskPool, Readings, find_task, drop_task, is_expired, complete, pump, submit, answered,
}
use vivim_omega.Run.Pool.Conserve.{
  new, IsSound, IsBusy, take-none, take-some, submit-IsSound, answered-IsSound, answered-found,
  answered-missing,
}

-- what happens to a pool
pub data PoolEvent (V : Type 0) : Type 0 where
  submitting : ℕ → (QueuedTask → Readings) → TaskRequest → PoolEvent V
  answering : (QueuedTask → Readings) → ℕ → Readings → PortResult V → PoolEvent V

module _ {V : Type 0} where
  unfoldable pub pool_step : TaskPool V → PoolEvent V → TaskPool V
  pool_step p (submitting now clock req) = (submit now clock req p).0
  pool_step p (answering clock id at r) = or_else (answered clock id at r p) p

  unfoldable pub pool_run : TaskPool V → List (PoolEvent V) → TaskPool V
  pool_run p [] = p
  pool_run p (e ∷ es) = pool_run (pool_step p e) es

  step-IsSound :
      (capacity : ℕ) (p : TaskPool V) (e : PoolEvent V)
      → IsSound capacity p
      → IsSound capacity (pool_step p e)
  unfolding pool_step
  step-IsSound capacity p (submitting now clock req) h = submit-IsSound now capacity clock req p h
  step-IsSound capacity p (answering clock id at r) h =
      elim (Option-cases (answered clock id at r p)) [
        | inl e ↦ rw e h
        | inr (p', e) ↦ rw e (answered-IsSound clock id capacity at r p p' h e)
      ]

  run-IsSound :
      (capacity : ℕ) (p : TaskPool V) (es : List (PoolEvent V))
      → IsSound capacity p
      → IsSound capacity (pool_run p es)
  unfolding pool_run
  run-IsSound capacity p [] h = h
  run-IsSound capacity p (e ∷ es) h =
      run-IsSound capacity (pool_step p e) es (step-IsSound capacity p e h)

  new-IsSound : (capacity : ℕ) → IsSound {V = V} capacity (new capacity)
  new-IsSound capacity = record {
    same_capacity = refl;
    slots_are_tasks = refl;
    within_capacity = omega arith;
    within_limit = omega arith;
    none_lost = refl;
    all_counted = refl;
    completed_counted = refl;
  }

  -- In every life of a pool, at most `capacity` tasks execute, one per claimed slot; queued and
  -- executing tasks together stay within four times the capacity; every admitted task is queued,
  -- executing or has one result, and the results are counted as ok, timed out or in error.
  pub pool_run-IsSound :
      (capacity : ℕ) (es : List (PoolEvent V)) → IsSound capacity (pool_run (new capacity) es)
  pool_run-IsSound capacity es = run-IsSound capacity (new capacity) es (new-IsSound capacity)

  complete-queued :
      (task : QueuedTask) (at : Readings) (r : PortResult V) (p : TaskPool V)
      → queued (complete task at r p).queue ≡ queued p.queue
  unfolding complete finish
  complete-queued task at r p = refl

  pump-queued-le :
      (clock : QueuedTask → Readings) (fuel : ℕ) (p : TaskPool V)
      → queued (pump clock fuel p).queue ≤ queued p.queue
  unfolding pump
  pump-queued-le clock zero p = omega arith
  pump-queued-le clock (suc fuel) p =
      elim (Bool-cases (ltb p.queue.running_slots p.queue.capacity)) [
        | inr full ↦ rw (full, pump) (omega arith)
        | inl free ↦ elim (Option-cases (take p.queue)) [
          | inl e ↦ rw (free, pump) (rw e (omega arith))
          | inr ((task, q), e) ↦
              let t = take-some p.queue q task e in
              elim (Bool-cases (is_expired task (clock task))) [
                | inl late ↦
                    let p' : TaskPool V =
                      complete task (clock task) (fail budget) (record p { queue = q }) in
                    let a = pump-queued-le clock fuel p' in
                    let b = pump-queued-le clock fuel (pump clock fuel p') in
                    let c =
                      complete-queued task (clock task) (fail budget) (record p { queue = q }) in
                    rw (free, pump) (rw e (rw late (omega (arith, t, a, b, c))))
                | inr fine ↦
                    let a =
                      pump-queued-le clock fuel
                        (record p { queue = q; executing = p.executing ++ task ∷ [] }) in
                    rw (free, pump) (rw e (rw fine (omega (arith, t, a))))
              ]
        ]
      ]

  pump-IsBusy :
      (clock : QueuedTask → Readings) (fuel : ℕ) (p : TaskPool V)
      → queued p.queue ≤ fuel
      → IsBusy (pump clock fuel p)
  unfolding pump
  pump-IsBusy clock zero p h = inl (omega (arith, h))
  pump-IsBusy clock (suc fuel) p h =
      elim (Bool-cases (ltb p.queue.running_slots p.queue.capacity)) [
        | inr full ↦ rw (full, pump) (inr (ground (arith, full)))
        | inl free ↦ elim (Option-cases (take p.queue)) [
          | inl e ↦ rw (free, pump) (rw e (inl (take-none p.queue e)))
          | inr ((task, q), e) ↦
              let t = take-some p.queue q task e in
              elim (Bool-cases (is_expired task (clock task))) [
                | inl late ↦
                    let p' : TaskPool V =
                      complete task (clock task) (fail budget) (record p { queue = q }) in
                    let a = pump-queued-le clock fuel p' in
                    let c =
                      complete-queued task (clock task) (fail budget) (record p { queue = q }) in
                    rw (free, pump)
                      (rw e (
                        rw late (
                          pump-IsBusy clock fuel (pump clock fuel p') (omega (arith, t, a, c, h)))))
                | inr fine ↦
                    rw (free, pump)
                      (rw e (
                        rw fine (
                          pump-IsBusy clock fuel
                            (record p { queue = q; executing = p.executing ++ task ∷ [] })
                            (omega (arith, t, h)))))
              ]
        ]
      ]

  step-IsBusy : (p : TaskPool V) (e : PoolEvent V) → IsBusy p → IsBusy (pool_step p e)
  unfolding pool_step submit Queue.submit
  step-IsBusy p (submitting now clock req) h = elim (Bool-cases (req.op == "")) [
    | inl e ↦ rw (e, pool_step, submit) h
    | inr e ↦
        elim (Bool-cases
          (leb (saturation_limit p.queue) (queued p.queue + p.queue.running_slots))) [
            | inl full ↦ rw (e, pool_step, submit) (rw full h)
            | inr free ↦
                let req' : TaskRequest = record req {
                  deadline_ms = some (clamp_deadline req.deadline_ms);
                } in
                let task = new_task now req' p.queue in
                rw (e, pool_step, submit)
                  (rw free (
                    pump-IsBusy clock (queued (push task p.queue))
                      (record p { queue = push task p.queue }) (omega arith)))
          ]
  ]
  step-IsBusy p (answering clock id at r) h = elim (Option-cases (find_task id p.executing)) [
    | inl e ↦ rw (answered-missing clock id at r p e) h
    | inr (task, e) ↦
        let p' : TaskPool V =
          complete task at r (record p { executing = drop_task id p.executing }) in
        rw (answered-found clock id at r p task e)
          (pump-IsBusy clock (queued p'.queue) p' (omega arith))
  ]

  run-IsBusy : (p : TaskPool V) (es : List (PoolEvent V)) → IsBusy p → IsBusy (pool_run p es)
  unfolding pool_run
  run-IsBusy p [] h = h
  run-IsBusy p (e ∷ es) h = run-IsBusy (pool_step p e) es (step-IsBusy p e h)

  -- In every life of a pool, after each event either no task waits or every slot is claimed.
  pub pool_run-IsBusy :
      (capacity : ℕ) (es : List (PoolEvent V)) → IsBusy (pool_run (new capacity) es)
  pool_run-IsBusy capacity es = run-IsBusy (new capacity) es (inl refl)
