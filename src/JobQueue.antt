-- ===== src/JobQueue.antt =====
-- system-design/job-queue/queue.go: jobs, and the queue of pointers to them. A pointer is a number,
-- and `jobs` is the memory that the pointers lead into. Times are nanoseconds since Go's zero time,
-- and each call of `time.Now()` is an argument. A channel of capacity 1 is a Boolean, whether it is
-- full. The mutex makes each function below one step, but for promote_ready, whose signal is sent after
-- the lock is given up.
pub mod Heap
pub mod Less
pub mod Backoff
pub mod Dispatch
pub mod Schedule
pub mod Places
pub mod Valid
pub mod Life
pub mod Attempts
pub mod Workers
mod Tests
use leetsheet.Prelude.{
  ℕ, zero, suc, ◌+◌, ◌-◌, ◌*◌, ◌/◌, Bool, true, false, not, List, [], ◌∷◌, ◌++◌, Option, none, some,
  ltb, leb, ◌==◌, if◌then◌else◌, length, take, drop,
}
use leetsheet.Prelude.Int.{ℤ, pos, pos_part, ◌+ℤ◌, ltb_ℤ, leb_ℤ, eqb_ℤ}
use leetsheet.Prelude.Maps.{lookup, insert, bytes_eq}
use leetsheet.Prelude.Text.{Bytes, str_eq, codes}
use leetsheet.JobQueue.Heap.{at, push, pop}

pub data Status : Type 0 where
  pending processing completed failed dead_status : Status

-- Status.String. The type has no other values, so the default case is left out.
pub to_string : Status → Bytes
to_string pending = codes "pending"
to_string processing = codes "processing"
to_string completed = codes "completed"
to_string failed = codes "failed"
to_string dead_status = codes "dead"

pub status_eq : Status → Status → Bool
status_eq pending pending = true
status_eq processing processing = true
status_eq completed completed = true
status_eq failed failed = true
status_eq dead_status dead_status = true
status_eq _ _ = false

-- What Enqueue returns besides nil; the first two are the unnamed errors.
pub data Error : Type 0 where
  empty_id empty_type queue_closed duplicate_job : Error

-- `Any` is the type of payloads, which are only passed on.
pub record Job (Any : Type 0) : Type 0 where
  pub id : Bytes
  pub type : Bytes
  pub payload : Any
  pub priority : ℤ
  pub status : Status
  pub attempt : ℤ
  pub max_attempts : ℤ
  pub run_at : ℕ
  pub enqueued_at : ℕ
  pub last_error : Bytes

module _ {Any : Type 0} where
  -- The memory after a write through one pointer.
  abbrev pub update : (ℕ → Job Any) → ℕ → Job Any → ℕ → Job Any
  update jobs p j x = if p == x then j else jobs x

  pub ready : Job Any → ℕ → Bool
  ready j now = not (ltb now j.run_at)

  -- jobHeap.Less, on pointers.
  pub less : (ℕ → Job Any) → ℕ → ℕ → Bool
  less jobs x y =
      if not (eqb_ℤ (jobs x).priority (jobs y).priority)
      then ltb_ℤ (jobs y).priority (jobs x).priority
      else ltb (jobs x).run_at (jobs y).run_at

pub record Queue (Any : Type 0) : Type 0 where
  pub jobs : ℕ → Job Any
  pub pending_heap : List ℕ
  pub scheduled : List ℕ
  pub all : List (Bytes × ℕ)
  pub dlq : List ℕ
  pub notify : Bool
  pub reschedule : Bool
  pub closed : Bool

-- sort.Search over the indices from `i` to `j`, with fuel.
pub search_loop : ℕ → (ℕ → Bool) → ℕ → ℕ → ℕ
search_loop zero test i j = i
search_loop (suc k) test i j =
    let h = (i + j) / 2 in
    let right = search_loop k test (h + 1) j in
    let left = search_loop k test i h in if ltb i j then (if test h then left else right) else i

pub is_some : Option ℕ → Bool
is_some none = false
is_some (some x) = true

-- One turn of the loop of dequeue, up to the point where it parks.
pub data Turn : Type 0 where
  taken : ℕ → Turn
  refused parked : Turn

-- What ends the wait of a parked worker. It takes the signal; the other two end dequeue.
pub data Wake : Type 0 where
  notified cancelled queue_gone : Wake

module _ {Any : Type 0} where
  -- NewQueue, in a memory of jobs that callers have made.
  pub new_queue : (ℕ → Job Any) → Queue Any
  new_queue jobs = record {
    jobs = jobs;
    pending_heap = [];
    scheduled = [];
    all = [];
    dlq = [];
    notify = false;
    reschedule = false;
    closed = false;
  }

  abbrev pub write : Queue Any → ℕ → Job Any → Queue Any
  write q p j = record q { jobs = update q.jobs p j }

  -- The test that insertScheduled searches with: RunAt at the index is not before the job's.
  abbrev pub not_before : (ℕ → Job Any) → List ℕ → ℕ → ℕ → Bool
  not_before jobs s p i = not (ltb (jobs (at s i)).run_at (jobs p).run_at)

  -- `append`, `copy` and the write shift the tail by one place.
  pub insert_scheduled : (ℕ → Job Any) → List ℕ → ℕ → List ℕ
  unfolding search_loop
  insert_scheduled jobs s p =
      let idx = search_loop (length s) (not_before jobs s p) 0 (length s) in
      take idx s ++ (p ∷ drop idx s)

  -- The common end of Enqueue and requeue: into the heap, or into the scheduled list.
  pub place : Queue Any → ℕ → ℕ → Queue Any
  unfolding ready less insert_scheduled
  place q p now =
      if ready (q.jobs p) now
      then record q { pending_heap = push (less q.jobs) q.pending_heap p; notify = true }
      else record q { scheduled = insert_scheduled q.jobs q.scheduled p; reschedule = true }

  -- Enqueue once the guards are passed.
  pub accept : Queue Any → ℕ → ℕ → ℕ → Queue Any
  unfolding place
  accept q p now later =
      let j = q.jobs p in
      let q' = write q p (record j {
        enqueued_at = now;
        run_at = if j.run_at == 0 then now else j.run_at;
        status = pending;
      }) in
      place (record q' { all = insert j.id p q.all }) p later

  -- `job.MaxAttempts <= 0` is mended before the queue is locked, whatever follows.
  pub mend : Queue Any → ℕ → Queue Any
  mend q p =
      let j = q.jobs p in
      if leb_ℤ j.max_attempts (pos 0) then write q p (record j { max_attempts = pos 1 }) else q

  -- Enqueue of the job at `p`; `now` and `later` are its two readings of the clock.
  pub enqueue : Queue Any → ℕ → ℕ → ℕ → Queue Any × Option Error
  unfolding accept mend is_some
  enqueue q p now later =
      if str_eq (q.jobs p).id []
      then (q, some empty_id)
      else if str_eq (q.jobs p).type []
      then (q, some empty_type)
      else let q' = mend q p in
        if q.closed
        then (q', some queue_closed)
        else if is_some (lookup (q.jobs p).id q.all)
        then (q', some duplicate_job)
        else (accept q' p now later, none)

  pub mark : Queue Any → ℕ → Status → Queue Any
  mark q p s = write q p (record (q.jobs p) { status = s })

  pub take_from : Option (ℕ × List ℕ) → Queue Any → Queue Any × Turn
  unfolding mark
  take_from (some (p, rest)) q = (mark (record q { pending_heap = rest }) p processing, taken p)
  take_from none q = if q.closed then (q, refused) else (q, parked)

  pub dequeue_turn : Queue Any → Queue Any × Turn
  unfolding take_from less
  dequeue_turn q = take_from (pop (less q.jobs) q.pending_heap) q

  pub can_wake : Queue Any → Wake → Bool → Bool
  can_wake q notified ctx_done = q.notify
  can_wake q cancelled ctx_done = ctx_done
  can_wake q queue_gone ctx_done = q.closed

  pub wake : Queue Any → Wake → Queue Any
  wake q notified = record q { notify = false }
  wake q cancelled = q
  wake q queue_gone = q

  -- `delay` may be negative; a time before the zero time does not arise.
  pub requeue : Queue Any → ℕ → ℤ → ℕ → ℕ → Queue Any
  unfolding place
  requeue q p delay now later =
      place
        (write q p (record (q.jobs p) { status = failed; run_at = pos_part (pos now +ℤ delay) })) p
        later

  pub dead : Queue Any → ℕ → Queue Any
  unfolding mark
  dead q p = let q' = mark q p dead_status in record q' { dlq = q.dlq ++ (p ∷ []) }

  pub complete : Queue Any → ℕ → Queue Any
  unfolding mark
  complete q p = mark q p completed

  -- DLQ(): a copy of the list of pointers.
  pub dlq_of : Queue Any → List ℕ
  dlq_of q = q.dlq

  unfoldable pub close : Queue Any → Queue Any
  close q = if not q.closed then record q { closed = true } else q

  with_status : (ℕ → Job Any) → Status → List (Bytes × ℕ) → List ℕ
  with_status jobs s [] = []
  with_status jobs s ((id, p) ∷ m) =
      if status_eq (jobs p).status s then p ∷ with_status jobs s m else with_status jobs s m

  -- Snapshot at one status; Go gives the pointers in no particular order.
  pub snapshot : Queue Any → Status → List ℕ
  unfolding with_status status_eq
  snapshot q s = with_status q.jobs s q.all

  -- How long runScheduler sleeps: until the first scheduled job is due, at least 0, or a day.
  pub sleep_time : Queue Any → ℕ → ℕ
  sleep_time q now = elim q.scheduled [
    | [] ↦ 24 * 3_600_000_000_000
    | p ∷ s ↦ (q.jobs p).run_at - now
  ]

  -- promoteReady: the loop takes from the front of the scheduled list.
  pub promote_loop : (ℕ → Job Any) → ℕ → List ℕ → List ℕ → List ℕ × List ℕ
  unfolding less
  promote_loop jobs now heap [] = (heap, [])
  promote_loop jobs now heap (p ∷ s) =
      let rest = promote_loop jobs now (push (less jobs) heap p) s in
      if not (ltb now (jobs p).run_at) then rest else (heap, p ∷ s)

  -- What promoteReady does with the queue locked, and whether it promoted a job.
  pub promote : Queue Any → ℕ → Queue Any × Bool
  unfolding promote_loop
  promote q now =
      let (heap, rest) = promote_loop q.jobs now q.pending_heap q.scheduled in
      (record q { pending_heap = heap; scheduled = rest }, ltb (length rest) (length q.scheduled))

  -- ping(q.notify), outside of the lock.
  pub ping_notify : Queue Any → Queue Any
  ping_notify q = record q { notify = true }

  pub promote_ready : Queue Any → ℕ → Queue Any
  unfolding promote ping_notify
  promote_ready q now =
      let (q', promoted) = promote q now in if promoted then ping_notify q' else q'

-- What the select of runScheduler receives.
pub data Tick : Type 0 where
  timer_fired rescheduled stopped : Tick

module _ {Any : Type 0} where
  -- One turn of runScheduler after its sleep; `stopped` is the cancelled context or closeCh.
  pub scheduler_turn : Queue Any → Tick → ℕ → Option (Queue Any)
  unfolding promote_ready
  scheduler_turn q timer_fired now = some (promote_ready q now)
  scheduler_turn q rescheduled now = some (record q { reschedule = false })
  scheduler_turn q stopped now = none
