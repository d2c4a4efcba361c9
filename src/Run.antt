-- ===== src/Run.antt =====
-- The executor, plugins/vivim-run/src: the priority queue (queue.ts) and the pool that drives it
-- (pool.ts).
pub mod Queue
pub mod Pool
pub mod Health
