-- ===== src/JobQueue/Workers.antt =====
-- The workers of dispatcher.go on a queue, with the loop of dequeue (queue.go) in its parts: a worker
-- that finds nothing parks, and one signal in `notify` wakes one of the parked workers.
pub mod Rung
pub mod Attended
pub mod Held
use leetsheet.Prelude.{ℕ, ◌≡◌, Bool, true, false, List, ◌∷◌, Option, some, get_elem?, set}
use leetsheet.Prelude.Int.{ℤ}
use leetsheet.Prelude.Text.{Bytes}
use leetsheet.JobQueue.{
  Queue, Turn, taken, refused, parked, enqueue, promote, ping_notify, dequeue_turn, Wake, wake,
  can_wake, notified, cancelled, queue_gone, close,
}
use leetsheet.JobQueue.Dispatch.{Env, HandlerFunc, process}

-- Where a worker stands: about to look at the queue, in the select of dequeue, at work on a job, or
-- returned.
pub data Worker : Type 0 where
  looking waiting : Worker
  working : ℕ → Worker
  returned : Worker

-- What a turn of dequeue makes of the worker.
unfoldable pub after_turn : Turn → Worker
after_turn (taken p) = working p
after_turn refused = returned
after_turn parked = waiting

-- What a case of the select of dequeue makes of the worker.
pub after_wake : Wake → Worker
after_wake notified = looking
after_wake cancelled = returned
after_wake queue_gone = returned

-- Looking, or at work and about to look again.
abbrev pub is_active : Worker → Bool
is_active looking = true
is_active (working p) = true
is_active waiting = false
is_active returned = false

pub record System (Any : Type 0) : Type 0 where
  pub queue : Queue Any
  pub workers : List Worker
  -- whether the scheduler has promoted jobs and not yet signalled it
  pub ping_due : Bool

module _ {Any : Type 0} (count : ℤ) (handlers : List (Bytes × HandlerFunc Any)) where
  -- One step of a producer, the scheduler, or a worker.
  pub data Step (s : System Any) : System Any → Type 0 where
    produced : (p now later : ℕ) → Step s (record s { queue = (enqueue s.queue p now later).0 })
    -- promoteReady, locked, and then its signal if it promoted a job
    promoted :
        (now : ℕ)
        → s.ping_due ≡ false
        → Step s (record s { queue = (promote s.queue now).0; ping_due = (promote s.queue now).1 })
    pinged : s.ping_due ≡ true → Step s (record s { queue = ping_notify s.queue; ping_due = false })
    looked :
        (i : ℕ)
        → get_elem? s.workers i ≡ some looking
        → Step s (record s {
          queue = (dequeue_turn s.queue).0;
          workers = set s.workers i (after_turn (dequeue_turn s.queue).1);
        })
    -- a case of the select that can fire; `ctx_done` is whether the context is cancelled
    woken :
        (i : ℕ) (w : Wake) (ctx_done : Bool)
        → get_elem? s.workers i ≡ some waiting
        → can_wake s.queue w ctx_done ≡ true
        → Step s (record s { queue = wake s.queue w; workers = set s.workers i (after_wake w) })
    processed :
        (i p : ℕ) (env : Env)
        → get_elem? s.workers i ≡ some (working p)
        → Step s (record s {
          queue =
              process env (record { queue = s.queue; worker_count = count; handlers = handlers }) p;
          workers = set s.workers i looking;
        })
    closed_down : Step s (record s { queue = close s.queue })

  pub data Steps (s : System Any) : System Any → Type 0 where
    here : Steps s s
    next : {t u : System Any} → Steps s t → Step t u → Steps s u

-- Some worker is active.
pub Active : List Worker → Type 0
Active ws = (i : ℕ) × (w : Worker) × (get_elem? ws i ≡ some w) × (is_active w ≡ true)
