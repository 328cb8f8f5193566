-- ===== src/WorkerPool.antt =====
-- pkg/worker_pool.go: a pool of workers between two buffered channels, and the main program of
-- RunWorkerPool (and of RunWorkerExample in pkg/worker.go): submit all jobs, close, collect until the
-- results are closed. A channel is the list of what it holds; the buffer size is at least 1.
pub mod Counts
pub mod Invariant
pub mod Measure
pub mod Progress
pub mod Finish
mod Tests
use leetsheet.Prelude.{
  ℕ, zero, suc, ◌+◌, ◌*◌, ◌%◌, ◌^◌, ◌<◌, ◌≡◌, Bool, true, false, List, [], ◌∷◌, ◌++◌, Option, none,
  some, length, get_elem?, set, replicate, All,
}
use leetsheet.Prelude.Int.{ℤ, pos, negsuc, signed64}

pub record Job : Type 0 where
  pub id : ℤ
  pub input : ℤ

-- The one error is "input cannot be negative".
pub data Error : Type 0 where
  negative_input : Error

pub record Result : Type 0 where
  pub job_id : ℤ
  pub worker_id : ℕ
  pub output : ℤ
  pub err : Option Error

-- What a worker sends for a job; the product wraps around at 64 bits.
pub answer : ℕ → Job → Result
answer worker j = elim j.input [
  | pos n ↦ record {
    job_id = j.id;
    worker_id = worker;
    output = signed64 ((n * n) % 2 ^ 64);
    err = none;
  }
  | negsuc n ↦ record {
    job_id = j.id;
    worker_id = worker;
    output = pos 0;
    err = some negative_input;
  }
]

-- Where a worker's loop stands: about to receive, about to send the answer to a job, or returned.
pub data Worker : Type 0 where
  idle : Worker
  holding : Job → Worker
  returned : Worker

pub record Pool : Type 0 where
  pub capacity : ℕ
  pub to_submit : List Job
  pub jobs : List Job
  pub jobs_closed : Bool
  pub workers : List Worker
  pub results : List Result
  pub results_closed : Bool
  pub received : List Result
  pub finished : Bool
  -- whether a send on the closed channel of results has brought the program down
  pub panicked : Bool

-- NewWorkerPool and Start, with the jobs that the main program is going to submit.
pub start : ℕ → ℕ → List Job → Pool
start num_workers size jobs = record {
  capacity = size;
  to_submit = jobs;
  jobs = [];
  jobs_closed = false;
  workers = replicate num_workers idle;
  results = [];
  results_closed = false;
  received = [];
  finished = false;
  panicked = false;
}

-- The jobs that the main programs submit, `count` of them from `j` on.
pub numbered : ℕ → ℕ → List Job
numbered j zero = []
numbered j (suc count) = record { id = pos j; input = pos j } ∷ numbered (suc j) count

-- RunWorkerPool, with the loop over Results as its last steps.
abbrev pub run_worker_pool : Pool
run_worker_pool = start 2 10 (numbered 1 10)

-- RunWorkerExample of pkg/worker.go, the same with other numbers.
abbrev pub run_worker_example : Pool
run_worker_example = start 3 8 (numbered 1 8)

-- One step of some goroutine. A send waits for room and panics on a closed channel, and a receive
-- waits for a value or the close. That the program is down after a panic is not put into the steps.
pub data Step (s : Pool) : Pool → Type 0 where
  -- Submit
  submit :
      (j : Job) (rest : List Job)
      → s.to_submit ≡ j ∷ rest
      → length s.jobs < s.capacity
      → Step s (record s { to_submit = rest; jobs = s.jobs ++ (j ∷ []) })
  -- Done, once all is submitted
  done : s.to_submit ≡ [] → s.jobs_closed ≡ false → Step s (record s { jobs_closed = true })
  -- the range loop of worker `i + 1` receives, sends, and ends
  take_job :
      (i : ℕ) (j : Job) (rest : List Job)
      → get_elem? s.workers i ≡ some idle
      → s.jobs ≡ j ∷ rest
      → Step s (record s { workers = set s.workers i (holding j); jobs = rest })
  send_result :
      (i : ℕ) (j : Job)
      → get_elem? s.workers i ≡ some (holding j)
      → s.results_closed ≡ false
      → length s.results < s.capacity
      → Step s (record s {
        workers = set s.workers i idle;
        results = s.results ++ (answer (suc i) j ∷ []);
      })
  send_closed :
      (i : ℕ) (j : Job)
      → get_elem? s.workers i ≡ some (holding j)
      → s.results_closed ≡ true
      → s.panicked ≡ false
      → Step s (record s { panicked = true })
  leave :
      (i : ℕ)
      → get_elem? s.workers i ≡ some idle
      → s.jobs ≡ []
      → s.jobs_closed ≡ true
      → Step s (record s { workers = set s.workers i returned })
  -- the goroutine that waits for all workers
  close_results :
      All (λ w. w ≡ returned) s.workers
      → s.results_closed ≡ false
      → Step s (record s { results_closed = true })
  -- the loop over Results, after Done
  collect :
      (r : Result) (rest : List Result)
      → s.jobs_closed ≡ true
      → s.finished ≡ false
      → s.results ≡ r ∷ rest
      → Step s (record s { results = rest; received = s.received ++ (r ∷ []) })
  finish :
      s.jobs_closed ≡ true
      → s.results ≡ []
      → s.results_closed ≡ true
      → s.finished ≡ false
      → Step s (record s { finished = true })

pub data Steps (s : Pool) : Pool → Type 0 where
  here : Steps s s
  next : {t u : Pool} → Steps s t → Step t u → Steps s u
