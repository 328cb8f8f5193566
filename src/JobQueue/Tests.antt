-- ===== src/JobQueue/Tests.antt =====
-- The queue at concrete inputs: a memory of jobs whose priority is their address.
use leetsheet.Prelude.{
  replicate, ap, set, length, ◌<◌, ℕ, ◌+◌, ◌∙◌, ◌⊎◌, false, ◌≡◌, refl, true, List, [], ◌∷◌, none,
  arith,
}
use leetsheet.Prelude.Int.{◌-ℤ◌, pos, ◌≤ℤ◌}
use leetsheet.Prelude.Maps.{lookup, insert, bytes_eq}
use leetsheet.Prelude.Text.{Bytes, codes, str_eq}
use leetsheet.JobQueue.{
  close, pending, processing, Job, Queue, less, new_queue, enqueue, dequeue_turn, promote_loop,
}
use leetsheet.JobQueue.Heap.{push, pop}
use leetsheet.JobQueue.Heap.Laws.{IsHeapList}
use leetsheet.JobQueue.Backoff.{backoff, backoff-overflow}
use leetsheet.JobQueue.Schedule.{Promoted, promote_loop_lem}
use leetsheet.JobQueue.Places.{IsValid, registered}
use leetsheet.JobQueue.Valid.Put.{enqueue-IsValid}
use leetsheet.JobQueue.Valid.Take.{Turned, dequeue_turn_lem}
use leetsheet.JobQueue.Dispatch.{run_worker, HandlerFunc, Dispatcher, Env, process}
use leetsheet.JobQueue.Dispatch.Outcomes.{Went, destined, process-Went}
use leetsheet.JobQueue.Dispatch.Load.{load}
use leetsheet.JobQueue.Dispatch.Drain.{Drained, run_worker-Drained}
use leetsheet.JobQueue.Dispatch.Touched.{process-Ran}
use leetsheet.JobQueue.Attempts.{is_open, registered-eq}
use leetsheet.JobQueue.Attempts.History.{calls, calls-bounded}
use leetsheet.JobQueue.Workers
use leetsheet.JobQueue.Workers.{Worker, looking, working, after_turn, System, Active}
use leetsheet.JobQueue.Workers.Attended.{Steps-attended}
use leetsheet.JobQueue.Workers.Held.{IsKept, Steps-IsKept}
use mathlib.Core.Path.{subst}
use leetsheet.JobQueue.Life.{
  closed_down, Steps, here, next, produced, taken_up, processed, Steps-IsValid,
}

-- The job at an address is due then, with its address as priority and one attempt.
abbrev memory : ℕ → Job ℕ
memory p = record {
  id = p ∷ [];
  type = codes "mail";
  payload = 0;
  priority = pos p;
  status = pending;
  attempt = pos 0;
  max_attempts = pos 1;
  run_at = p;
  enqueued_at = 0;
  last_error = [];
}

single-IsHeapList : IsHeapList (less memory) (3 ∷ [])
single-IsHeapList c c_pos c_in = absurd (omega arith)

backoff-overflow_example : backoff (λ n. n) (pos 56) ≡ pos 0
backoff-overflow_example = backoff-overflow (λ n. n) (λ n h. refl) 0 (omega arith)

promote_loop_lem_example :
    Promoted memory 5 (3 ∷ []) (4 ∷ []) (promote_loop memory 5 (3 ∷ []) (4 ∷ []))
promote_loop_lem_example = promote_loop_lem memory 5 (3 ∷ []) (4 ∷ []) single-IsHeapList (tt, tt)

abbrev empty : Queue ℕ
unfolding new_queue
empty = new_queue memory

empty-IsValid : IsValid (new_queue memory)
empty-IsValid = Steps-IsValid memory (pos 1) [] (new_queue memory) here

-- A queue with one job pending, and then with that job being processed.
abbrev one_pending : Queue ℕ
one_pending = (enqueue (new_queue memory) 3 10 10).0

abbrev handlers : List (Bytes × HandlerFunc ℕ)
handlers = (codes "mail", λ j. none) ∷ []

one_pending-heap : one_pending.pending_heap ≡ 3 ∷ []
unfolding enqueue new_queue lookup insert str_eq push less
one_pending-heap = refl

dequeue_turn_lem_example :
    Turned one_pending.pending_heap one_pending
      (dequeue_turn one_pending).0
      (dequeue_turn one_pending).1
dequeue_turn_lem_example =
    dequeue_turn_lem one_pending (enqueue-IsValid (new_queue memory) 3 10 10 empty-IsValid)

abbrev one_busy : Queue ℕ
one_busy = (dequeue_turn one_pending).0

abbrev history : Steps (pos 1) handlers (new_queue memory) one_busy
history = next (next here (produced 3 10 10)) taken_up

known : registered one_busy 3 ≡ true
unfolding enqueue new_queue lookup insert str_eq push pop dequeue_turn
known = refl

busy : (one_busy.jobs 3).status ≡ processing
unfolding enqueue new_queue lookup insert str_eq push pop dequeue_turn
busy = refl

abbrev environment : Env
environment = record { now = 20; later = 20; quote = λ s. s; convert = λ n. n }

abbrev dispatcher : Dispatcher ℕ
dispatcher = record { queue = one_busy; worker_count = pos 1; handlers = handlers }

process-Went_example :
    Went
      (process environment dispatcher 3)
      3
      (destined (lookup (one_busy.jobs 3).type handlers) (one_busy.jobs 3))
process-Went_example = process-Went environment dispatcher 3 (record {
  valid = Steps-IsValid memory (pos 1) handlers one_busy history;
  known = known;
  busy = busy;
})

abbrev run_once : Steps (pos 1) handlers (new_queue memory) (process environment dispatcher 3)
run_once = next history (processed environment 3 known busy)

still_known : registered (process environment dispatcher 3) 3 ≡ true
still_known =
    let ran = process-Ran environment dispatcher 3 in
    registered-eq one_busy (process environment dispatcher 3) 3 ran.same_all ran.same_id ∙ known

calls-bounded_example :
    ((((process environment dispatcher 3).jobs 3).attempt ≡ pos (calls 3 run_once)))
    × ((pos (calls 3 run_once) ≤ℤ ((process environment dispatcher 3).jobs 3).max_attempts)
        × ((is_open ((process environment dispatcher 3).jobs 3).status ≡ false)
            ⊎ (pos (calls 3 run_once + 1)
                ≤ℤ ((process environment dispatcher 3).jobs 3).max_attempts)))
calls-bounded_example =
    calls-bounded memory (pos 1) handlers (λ x. refl) (process environment dispatcher 3) run_once 3
      still_known

one_call : calls 3 run_once ≡ 1
unfolding calls lookup str_eq dequeue_turn pop enqueue new_queue push
one_call = refl

abbrev shut : Queue ℕ
shut = close one_pending

shut-closed : shut.closed ≡ true
unfolding close enqueue new_queue lookup insert str_eq push less
shut-closed = refl

shut-load : load shut < 4
unfolding close enqueue new_queue lookup insert str_eq push less ◌-ℤ◌
shut-load = omega arith

shut-IsValid : IsValid shut
shut-IsValid =
    Steps-IsValid memory (pos 1) handlers shut (next (next here (produced 3 10 10)) closed_down)

run_worker-Drained_example : Drained (run_worker 4 (λ k. environment) (pos 1) handlers shut)
run_worker-Drained_example =
    run_worker-Drained (λ k. environment) (pos 1) handlers 4 shut shut-IsValid shut-closed shut-load

-- One worker finds nothing and parks, and a job comes in.
abbrev crew : List Worker
crew = looking ∷ []

abbrev office : System ℕ
office = record {
  queue = (enqueue (dequeue_turn (new_queue memory)).0 3 10 10).0;
  workers = set crew 0 (after_turn (dequeue_turn (new_queue memory)).1);
  ping_due = false;
}

abbrev parked_then_produced :
    Workers.Steps
      (pos 1)
      handlers
      (record { queue = new_queue memory; workers = crew; ping_due = false })
      office
parked_then_produced =
    Workers.next (Workers.next Workers.here (Workers.looked 0 refl)) (Workers.produced 3 10 10)

office-heap : office.queue.pending_heap ≡ 3 ∷ []
unfolding enqueue new_queue lookup insert str_eq push less dequeue_turn pop
office-heap = refl

office-pending : 0 < length office.queue.pending_heap
office-pending = omega (arith, ap (length {0}) office-heap)

Steps-attended_example :
    (office.queue.notify ≡ true) ⊎ ((office.ping_due ≡ true) ⊎ Active office.workers)
Steps-attended_example =
    Steps-attended (pos 1) handlers memory crew office parked_then_produced office-pending

-- One worker takes the job and is at work on it.
abbrev at_work : System ℕ
at_work = record { queue = one_busy; workers = working 3 ∷ []; ping_due = false }

taken_by_worker : after_turn (dequeue_turn one_pending).1 ≡ working 3
unfolding enqueue new_queue lookup insert str_eq push less dequeue_turn pop after_turn
taken_by_worker = refl

abbrev produced_then_taken :
    Workers.Steps
      (pos 1)
      handlers
      (record { queue = new_queue memory; workers = replicate 1 looking; ping_due = false })
      at_work
produced_then_taken =
    subst
      (λ w.
        Workers.Steps (pos 1) handlers
          (record { queue = new_queue memory; workers = replicate 1 looking; ping_due = false })
          (record { queue = one_busy; workers = w ∷ []; ping_due = false }))
      taken_by_worker
      (Workers.next (Workers.next Workers.here (Workers.produced 3 10 10)) (Workers.looked 0 refl))

abbrev worked : System ℕ
worked = record {
  queue = process environment dispatcher 3;
  workers = looking ∷ [];
  ping_due = false;
}

Steps-IsKept_example : IsKept worked
Steps-IsKept_example =
    Steps-IsKept (pos 1) handlers memory 1 worked
      (Workers.next produced_then_taken (Workers.processed 0 3 environment refl))
