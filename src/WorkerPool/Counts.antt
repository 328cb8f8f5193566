-- ===== src/WorkerPool/Counts.antt =====
-- Jobs and results weighed: sums over the lists and the workers of a pool.
use leetsheet.Prelude.{ℕ}
use leetsheet.WorkerPool.{Job, Worker, idle, holding, returned}
pub use leetsheet.Prelude.Sums.{sum_of, sum_of-append, sum_of-set}

-- What a worker holds, weighed.
abbrev pub held : (Job → ℕ) → Worker → ℕ
held f idle = 0
held f (holding j) = f j
held f returned = 0
