-- ===== src/Run/Pool/Examples.antt =====
-- The pool of plugins/vivim-run/src/pool.ts at concrete inputs: one slot, three submits, one answer;
-- the second task expires in the queue.
use vivim_omega.Common.{ℕ, String, Option, none, some, List, [], ◌∷◌}
use vivim_omega.Host.Port.{ok}
use vivim_omega.Run.Queue.{QueuedTask, TaskRequest}
use vivim_omega.Run.Pool.{Readings}
use vivim_omega.Run.Pool.Conserve.{IsSound, IsBusy, new}
use vivim_omega.Run.Pool.Progress.{
  PoolEvent, submitting, answering, pool_run, pool_run-IsSound, pool_run-IsBusy,
}

abbrev clock : QueuedTask → Readings
clock task = record { dequeue_at = 10; start_at = 10; settled_at = 10 }

abbrev request : Option ℕ → TaskRequest
request deadline_ms = record { op = "vault.get@1"; priority = none; deadline_ms = deadline_ms }

abbrev events : List (PoolEvent String)
events =
    submitting 0 clock (request none)
    ∷ submitting 0 clock (request (some 5))
    ∷ submitting 0 clock (request none)
    ∷ answering clock 1 (record { dequeue_at = 0; start_at = 0; settled_at = 10 }) (ok "value")
    ∷ []

pool_run-IsSound_example : IsSound 1 (pool_run (new 1) events)
pool_run-IsSound_example = pool_run-IsSound 1 events

pool_run-IsBusy_example : IsBusy (pool_run (new 1) events)
pool_run-IsBusy_example = pool_run-IsBusy 1 events
