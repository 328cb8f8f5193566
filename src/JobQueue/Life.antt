-- ===== src/JobQueue/Life.antt =====
-- Whole histories of a queue: producers, the scheduler and workers in any order. A worker's run of
-- process on the job that it holds is one step, and each of the other functions is one.
use leetsheet.Prelude.{ℕ, ◌≡◌, refl, true, List, [], ◌∷◌, arith}
use leetsheet.Prelude.Maps.{lookup, bytes_eq}
use leetsheet.JobQueue.{
  processing, Job, Queue, new_queue, enqueue, Wake, wake, notified, cancelled, queue_gone, Turn,
  dequeue_turn, close, promote, ping_notify,
}
use leetsheet.JobQueue.Places.{registered, IsValid}
use leetsheet.JobQueue.Valid.Put.{enqueue-IsValid}
use leetsheet.JobQueue.Valid.Take.{
  Turned, dequeue_turn_lem, close-IsValid, promote-IsValid, ping_notify-IsValid,
}
use leetsheet.JobQueue.Dispatch.{Env, process, HandlerFunc}
use leetsheet.JobQueue.Dispatch.Outcomes.{process-Went}
use leetsheet.Prelude.Int.{ℤ}
use leetsheet.Prelude.Text.{Bytes}

module _ {Any : Type 0} where
  -- What can happen to a queue that a dispatcher with `handlers` works on.
  pub data Step (n : ℤ) (handlers : List (Bytes × HandlerFunc Any)) (q : Queue Any)
      : Queue Any → Type 0 where
    produced : (p now later : ℕ) → Step n handlers q (enqueue q p now later).0
    -- promoteReady, locked, and then its signal
    promoted : (now : ℕ) → Step n handlers q (promote q now).0
    pinged : Step n handlers q (ping_notify q)
    taken_up : Step n handlers q (dequeue_turn q).0
    woken : (w : Wake) → Step n handlers q (wake q w)
    closed_down : Step n handlers q (close q)
    processed :
        (env : Env) (p : ℕ)
        → registered q p ≡ true
        → (q.jobs p).status ≡ processing
        → Step n handlers q
            (process env (record { queue = q; worker_count = n; handlers = handlers }) p)

  pub data Steps (n : ℤ) (handlers : List (Bytes × HandlerFunc Any)) (q : Queue Any)
      : Queue Any → Type 0 where
    here : Steps n handlers q q
    next : {r s : Queue Any} → Steps n handlers q r → Step n handlers r s → Steps n handlers q s

  Turned-IsValid :
      (q q' : Queue Any) (t : Turn) (h : List ℕ) → IsValid q → Turned h q q' t → IsValid q'
  Turned-IsValid q q' t [] v e = rw e.0 v
  Turned-IsValid q q' t (p ∷ a) v e = e.1.valid

  pub wake-IsValid : (q : Queue Any) (w : Wake) → IsValid q → IsValid (wake q w)
  unfolding wake
  wake-IsValid q notified v = record {
    heap = v.heap;
    sorted = v.sorted;
    waiting = v.waiting;
    lettered = v.lettered;
  }
  wake-IsValid q cancelled v = v
  wake-IsValid q queue_gone v = v

  Step-IsValid :
      {n : ℤ} {handlers : List (Bytes × HandlerFunc Any)} {q r : Queue Any}
      → Step n handlers q r
      → IsValid q
      → IsValid r
  Step-IsValid {q} (produced p now later) v = enqueue-IsValid q p now later v
  Step-IsValid {q} (promoted now) v = promote-IsValid q now v
  Step-IsValid {q} pinged v = ping_notify-IsValid q v
  Step-IsValid {q} taken_up v =
      Turned-IsValid q (dequeue_turn q).0 (dequeue_turn q).1 q.pending_heap v (dequeue_turn_lem q v)
  Step-IsValid {q} (woken w) v = wake-IsValid q w v
  Step-IsValid {q} closed_down v = close-IsValid q v
  Step-IsValid {n} {handlers} {q} (processed env p known busy) v =
      (process-Went env (record { queue = q; worker_count = n; handlers = handlers }) p
        (record { valid = v; known = known; busy = busy })).valid

  pub new_queue-IsValid : (jobs : ℕ → Job Any) → IsValid (new_queue jobs)
  unfolding new_queue lookup
  new_queue-IsValid jobs = record {
    heap = λ c p h. absurd (omega arith);
    sorted = tt;
    waiting = λ p. refl;
    lettered = λ p. refl;
  }

  -- In every history of a new queue, each job that Enqueue accepted is in exactly one place, the one
  -- that its status names: no job is lost, and none is queued twice.
  pub Steps-IsValid :
      (jobs : ℕ → Job Any) (n : ℤ) (handlers : List (Bytes × HandlerFunc Any)) (q : Queue Any)
      → Steps n handlers (new_queue jobs) q
      → IsValid q
  Steps-IsValid jobs n handlers q r = go r
    where
      go : {q : Queue Any} → Steps n handlers (new_queue jobs) q → IsValid q
      go here = new_queue-IsValid jobs
      go (next r st) = Step-IsValid st (go r)
