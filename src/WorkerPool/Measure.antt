-- ===== src/WorkerPool/Measure.antt =====
-- A measure of what is left to do in a pool.
use leetsheet.Prelude.{
  ℕ, suc, ◌+◌, ◌*◌, ◌<◌, ap, Bool, true, false, [], ◌∷◌, arith, length, length-append,
}
use leetsheet.WorkerPool.{
  answer, Worker, idle, holding, returned, Pool, Step, submit, done, take_job, send_result,
  send_closed, leave, close_results, collect, finish,
}
use leetsheet.WorkerPool.Counts.{sum_of, sum_of-set}

-- How far a worker is from its end.
abbrev pub distance : Worker → ℕ
distance idle = 1
distance (holding j) = 4
distance returned = 0

abbrev pub to_do : Bool → ℕ
to_do true = 0
to_do false = 1

-- How far a pool is from its end.
abbrev pub remaining : Pool → ℕ
remaining s =
    5 * length s.to_submit
    + 4 * length s.jobs
    + 2 * length s.results
    + sum_of distance s.workers
    + to_do s.jobs_closed
    + to_do s.results_closed
    + to_do s.finished
    + to_do s.panicked

-- Every step brings the pool nearer to its end, so no run goes on for ever.
pub Step-shrinks : {s t : Pool} → Step s t → remaining t < remaining s
Step-shrinks {s} (submit j rest e room) =
    omega (arith, length-append {0} s.jobs (j ∷ []), ap length e)
Step-shrinks {s} (done e unshut) = omega (arith, ap to_do unshut)
Step-shrinks {s} (take_job i j rest e f) =
    omega (arith, sum_of-set distance s.workers i idle (holding j) e, ap length f)
Step-shrinks {s} (send_result i j e unshut room) = omega (
  arith,
  sum_of-set distance s.workers i (holding j) idle e,
  length-append {0} s.results (answer (suc i) j ∷ []),
)
Step-shrinks {s} (send_closed i j e c up) = omega (arith, ap to_do up)
Step-shrinks {s} (leave i e f c) = omega (arith, sum_of-set distance s.workers i idle returned e)
Step-shrinks {s} (close_results all unshut) = omega (arith, ap to_do unshut)
Step-shrinks {s} (collect r rest c going e) = omega (arith, ap length e)
Step-shrinks {s} (finish c e f going) = omega (arith, ap to_do going)
