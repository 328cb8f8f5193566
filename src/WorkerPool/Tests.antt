-- ===== src/WorkerPool/Tests.antt =====
-- The pools of the demos.
use leetsheet.Prelude.{
  ℕ, ◌+◌, ◌<◌, ◌≤◌, ◌⊎◌, ◌≡◌, refl, true, false, [], ◌∷◌, Option, none, some, arith,
}
use leetsheet.Prelude.Int.{ℤ, pos, negsuc}
use leetsheet.WorkerPool.{
  Error, Job, answer, negative_input, Pool, start, submit, Step, Steps, here, next,
}
use leetsheet.WorkerPool.Counts.{sum_of}
use leetsheet.WorkerPool.Measure.{remaining, Step-shrinks}
use leetsheet.WorkerPool.Finish.{reported, pool_finishes}

abbrev square : Job
square = record { id = pos 1; input = pos 7 }

abbrev small : Pool
unfolding start
small = start 1 1 (square ∷ [])

abbrev small_next : Pool
small_next = record small { to_submit = []; jobs = square ∷ [] }

Step-shrinks_example : remaining small_next < remaining small
unfolding start
Step-shrinks_example =
    Step-shrinks {s = small} {t = small_next} (submit square [] refl (omega arith))

-- The job is submitted.
abbrev small_run : Steps small small_next
unfolding start
small_run = next here (submit square [] refl (omega arith))

pool_finishes_example :
    (small_next.panicked ≡ false)
    × (1 + remaining small_next ≤ remaining small)
    × (((small_next.finished ≡ true)
          × ((f : ℤ → ℤ → Option Error → ℕ)
              → sum_of (reported f) small_next.received
                ≡ sum_of (λ j. reported f (answer 0 j)) (square ∷ [])))
        ⊎ ((t : Pool) × Step small_next t))
unfolding start
pool_finishes_example =
    pool_finishes 1 1 (square ∷ []) small_next (omega arith) (omega arith) (omega arith) small_run

squared_input :
    answer 2 square ≡ record { job_id = pos 1; worker_id = 2; output = pos 49; err = none }
unfolding answer
squared_input = refl

negative_answer :
    answer 2 (record { id = pos 3; input = negsuc 0 })
    ≡ record { job_id = pos 3; worker_id = 2; output = pos 0; err = some negative_input }
unfolding answer
negative_answer = refl
