-- ===== src/JobQueue/Dispatch.antt =====
-- system-design/job-queue/dispatcher.go and scheduler.go: handlers, retries, delayed jobs.
pub mod Outcomes
pub mod Touched
pub mod Load
pub mod Drain
use leetsheet.Prelude.{
  ℕ, zero, suc, ◌+◌, Bool, true, false, List, [], ◌∷◌, ◌++◌, Option, none, some, if◌then◌else◌,
}
use leetsheet.Prelude.Int.{ℤ, pos, pos_part, ◌+ℤ◌, ltb_ℤ, leb_ℤ}
use leetsheet.Prelude.Maps.{lookup, insert, bytes_eq}
use leetsheet.Prelude.Text.{Bytes, codes}
use leetsheet.JobQueue.{
  Turn, taken, refused, parked, dequeue_turn, Job, Queue, Error, write, enqueue, requeue, dead,
  complete,
}
use leetsheet.JobQueue.Backoff.{backoff}

-- A handler gets the job and returns an error message or nil. Handlers do not write to the job.
abbrev pub HandlerFunc : Type 0 → Type 0
HandlerFunc Any = Job Any → Option Bytes

-- The goroutines, the lock and the wait group are left out.
pub record Dispatcher (Any : Type 0) : Type 0 where
  pub queue : Queue Any
  pub worker_count : ℤ
  pub handlers : List (Bytes × HandlerFunc Any)

-- What fmt.Sprintf gives for a type, which `%q` quotes: `quote` is strconv.Quote.
pub no_handler_message : (Bytes → Bytes) → Bytes → Bytes
no_handler_message quote type = codes "no handler registered for type " ++ quote type

-- The clock and the conversions that process uses: two readings of the clock in requeue,
-- strconv.Quote, and the float64 to int64 conversion of backoff.
pub record Env : Type 0 where
  pub now : ℕ
  pub later : ℕ
  pub quote : Bytes → Bytes
  pub convert : ℕ → ℕ

-- What a worker does after a round.
pub data Round : Type 0 where
  working left waiting : Round

module _ {Any : Type 0} where
  pub new_dispatcher : Queue Any → ℤ → Dispatcher Any
  new_dispatcher q n = record {
    queue = q;
    worker_count = if leb_ℤ n (pos 0) then pos 1 else n;
    handlers = [];
  }

  register_at :
      Option (HandlerFunc Any) → Dispatcher Any → Bytes → HandlerFunc Any → Option (Dispatcher Any)
  register_at (some old) d type h = none
  register_at none d type h = some (record d { handlers = insert type h d.handlers })

  -- Register; `none` is the panic at a type that has a handler.
  pub register : Dispatcher Any → Bytes → HandlerFunc Any → Option (Dispatcher Any)
  unfolding register_at
  register d type h = register_at (lookup type d.handlers) d type h

  -- After the handler has returned.
  pub conclude : Env → Queue Any → ℕ → Option Bytes → Queue Any
  unfolding complete requeue dead
  conclude env q p none = complete q p
  conclude env q p (some message) =
      let q' = write q p (record (q.jobs p) { last_error = message }) in
      if ltb_ℤ (q'.jobs p).attempt (q'.jobs p).max_attempts
      then requeue q' p (backoff env.convert (q'.jobs p).attempt) env.now env.later
      else dead q' p

  -- `job.Attempt++`
  pub begin_attempt : Queue Any → ℕ → Queue Any
  begin_attempt q p = write q p (record (q.jobs p) { attempt = (q.jobs p).attempt +ℤ pos 1 })

  run_handler : Env → Option (HandlerFunc Any) → Queue Any → ℕ → Queue Any
  unfolding conclude begin_attempt no_handler_message dead
  run_handler env none q p =
      dead
        (write q p
          (record (q.jobs p) { last_error = no_handler_message env.quote (q.jobs p).type }))
        p
  run_handler env (some h) q p = let q' = begin_attempt q p in conclude env q' p (h (q'.jobs p))

  -- process, for one worker between two of its calls of dequeue.
  pub process : Env → Dispatcher Any → ℕ → Queue Any
  unfolding run_handler
  process env d p = run_handler env (lookup (d.queue.jobs p).type d.handlers) d.queue p

  -- One round of runWorker, by what dequeue did: it works on a job, returns, or waits in dequeue.
  worker_round : Env → Dispatcher Any → Queue Any × Turn → Queue Any × Round
  unfolding process
  worker_round env d (q, taken p) = (process env (record d { queue = q }) p, working)
  worker_round env d (q, refused) = (q, left)
  worker_round env d (q, parked) = (q, waiting)

  after_round : (Queue Any → Queue Any × Round) → Queue Any × Round → Queue Any × Round
  after_round again (q, working) = again q
  after_round again (q, left) = (q, left)
  after_round again (q, waiting) = (q, waiting)

  -- runWorker of a worker that is not cancelled, for as many rounds as the fuel, each with the clock
  -- of its own, and until it returns or has to wait.
  pub run_worker :
      ℕ → (ℕ → Env) → ℤ → List (Bytes × HandlerFunc Any) → Queue Any → Queue Any × Round
  unfolding worker_round after_round dequeue_turn
  run_worker zero env n handlers q = (q, working)
  run_worker (suc k) env n handlers q =
      let d : Dispatcher Any = record { queue = q; worker_count = n; handlers = handlers } in
      after_round (run_worker k env n handlers) (worker_round (env k) d (dequeue_turn q))

  -- Scheduler.Schedule and Scheduler.ScheduleAt.
  pub schedule_at : Queue Any → ℕ → ℕ → ℕ → ℕ → Queue Any × Option Error
  schedule_at q p at now later = enqueue (write q p (record (q.jobs p) { run_at = at })) p now later

  pub schedule : Queue Any → ℕ → ℤ → ℕ → ℕ → ℕ → Queue Any × Option Error
  schedule q p delay start now later =
      enqueue (write q p (record (q.jobs p) { run_at = pos_part (pos start +ℤ delay) })) p now later
