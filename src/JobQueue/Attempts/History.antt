-- ===== src/JobQueue/Attempts/History.antt =====
-- The calls of a handler in a whole history of the queue.
use leetsheet.Prelude.{
  not, ◌⊎◌, ℕ, ◌+◌, ◌≡◌, refl, ap, ◌∙◌, Bool, true, false, List, Option, arith, ◌==◌, if◌then◌else◌,
  if-cases, inl, inr, Bool-cases,
}
use mathlib.Core.Path.{subst}
use leetsheet.Prelude.Int.{ℤ, pos, ◌≤ℤ◌}
use leetsheet.Prelude.Maps.{lookup, bytes_eq}
use leetsheet.Prelude.Text.{Bytes}
use leetsheet.JobQueue.{
  Wake, wake, notified, cancelled, queue_gone, close, promote, ping_notify, Job, Queue, new_queue,
}
use leetsheet.JobQueue.Dispatch.Touched.{Ran, process-Ran}
use leetsheet.JobQueue.Places.{registered}
use leetsheet.JobQueue.Dispatch.{Dispatcher, Env, HandlerFunc, process}
use leetsheet.JobQueue.Dispatch.Outcomes.{IsBusy, process-Went, destined}
use leetsheet.JobQueue.Attempts.{
  is_open, clash, Counted, Counted-ran, called, AllCounted, registered-eq, AllCounted-jobs,
  AllCounted-split,
}
use leetsheet.JobQueue.Life.{
  Steps, here, next, produced, promoted, pinged, taken_up, woken, closed_down, processed,
  Steps-IsValid,
}
use leetsheet.JobQueue.Attempts.Steps.{AllCounted-enqueue, AllCounted-dequeue_turn}

if_false : {b : Bool} (x : ℕ) → b ≡ false → (if b then x else 0) ≡ 0
if_false x e = rw e refl

module _ {Any : Type 0} where
  promote-all : (q : Queue Any) (now : ℕ) → (promote q now).0.all ≡ q.all
  unfolding promote
  promote-all q now = refl

  promote-jobs : (q : Queue Any) (now : ℕ) → (promote q now).0.jobs ≡ q.jobs
  unfolding promote
  promote-jobs q now = refl

  ping_notify-all : (q : Queue Any) → (ping_notify q).all ≡ q.all
  unfolding ping_notify
  ping_notify-all q = refl

  ping_notify-jobs : (q : Queue Any) → (ping_notify q).jobs ≡ q.jobs
  unfolding ping_notify
  ping_notify-jobs q = refl

  wake-all : (q : Queue Any) (w : Wake) → (wake q w).all ≡ q.all
  unfolding wake
  wake-all q notified = refl
  wake-all q cancelled = refl
  wake-all q queue_gone = refl

  wake-jobs : (q : Queue Any) (w : Wake) → (wake q w).jobs ≡ q.jobs
  unfolding wake
  wake-jobs q notified = refl
  wake-jobs q cancelled = refl
  wake-jobs q queue_gone = refl

  close-all : (q : Queue Any) → (close q).all ≡ q.all
  unfolding close
  close-all q = if-cases (λ (r : Queue Any). r.all ≡ q.all) (not q.closed) (λ _. refl) (λ _. refl)

  close-jobs : (q : Queue Any) → (close q).jobs ≡ q.jobs
  unfolding close
  close-jobs q =
      if-cases (λ (r : Queue Any). r.jobs ≡ q.jobs) (not q.closed) (λ _. refl) (λ _. refl)

  -- One run of process counts as one call for its job, if there is a handler.
  AllCounted-process :
      (env : Env) (d : Dispatcher Any) (p : ℕ) (c c' : ℕ → ℕ)
      → IsBusy d.queue p
      → ((x : ℕ)
          → c' x ≡ c x + (if p == x then called (lookup (d.queue.jobs p).type d.handlers) else 0))
      → AllCounted d.queue c
      → AllCounted (process env d p) c'
  AllCounted-process env d p c c' v count w =
      by_handler (lookup (d.queue.jobs p).type d.handlers) (process-Ran env d p)
        (process-Went env d p v).status count
    where
      q : Queue Any
      q = d.queue

      q' : Queue Any
      q' = process env d p

      by_handler :
          (h : Option (HandlerFunc Any))
          → Ran h q q' p
          → (q'.jobs p).status ≡ destined h (q.jobs p)
          → ((x : ℕ) → c' x ≡ c x + (if p == x then called h else 0))
          → AllCounted q' c'
      by_handler h r s n =
          AllCounted-split q q' c c' p
            (λ x e. registered-eq q q' x r.same_all (ap (λ (j : Job Any). j.id) (r.others x e)))
            r.others (λ x e. omega (arith, n x, if_false (called h) e))
            (rw (registered-eq q q' p r.same_all r.same_id ∙ v.known) (
              Counted-ran h (q.jobs p) (q'.jobs p) (c p) (c' p) v.busy r.attempts r.same_max s
                (ground (arith, n p)) (subst (λ b. Counted b (q.jobs p) (c p)) v.known (w p))))
            w

  module _ {n : ℤ} {handlers : List (Bytes × HandlerFunc Any)} where
    -- How often the handler of the job at `x` is called in a history.
    unfoldable pub calls : {q r : Queue Any} → ℕ → Steps n handlers q r → ℕ
    calls x here = 0
    calls x (next rs (produced p now later)) = calls x rs
    calls x (next rs (promoted now)) = calls x rs
    calls x (next rs pinged) = calls x rs
    calls x (next rs taken_up) = calls x rs
    calls x (next rs (woken w)) = calls x rs
    calls x (next rs closed_down) = calls x rs
    calls x (next {r = r} rs (processed env p known busy)) =
        calls x rs + (if p == x then called (lookup (r.jobs p).type handlers) else 0)

  new_counted :
      (jobs : ℕ → Job Any)
      → ((x : ℕ) → (jobs x).attempt ≡ pos 0)
      → AllCounted (new_queue jobs) (λ _. 0)
  unfolding new_queue lookup
  new_counted jobs unused x = record {
    attempts = unused x;
    fresh = λ _. refl;
    positive = λ h. absurd (clash h);
    within = λ h. absurd (clash h);
    more = λ h _. absurd (clash h);
  }

  module _ (jobs : ℕ → Job Any) (n : ℤ) (handlers : List (Bytes × HandlerFunc Any))
      (unused : (x : ℕ) → (jobs x).attempt ≡ pos 0) where
    AllCounted-calls :
        {q : Queue Any} (r : Steps n handlers (new_queue jobs) q) → AllCounted q (λ x. calls x r)
    unfolding calls
    AllCounted-calls here = new_counted jobs unused
    AllCounted-calls (next {r = q} rs (produced p now later)) =
        AllCounted-enqueue q p now later (λ x. calls x rs) (Steps-IsValid jobs n handlers q rs)
          (AllCounted-calls rs)
    AllCounted-calls (next {r = q} rs (promoted now)) =
        AllCounted-jobs q (promote q now).0 (λ x. calls x rs) (promote-all q now)
          (promote-jobs q now) (AllCounted-calls rs)
    AllCounted-calls (next {r = q} rs pinged) =
        AllCounted-jobs q (ping_notify q) (λ x. calls x rs) (ping_notify-all q) (ping_notify-jobs q)
          (AllCounted-calls rs)
    AllCounted-calls (next {r = q} rs taken_up) =
        AllCounted-dequeue_turn q (λ x. calls x rs) (Steps-IsValid jobs n handlers q rs)
          (AllCounted-calls rs)
    AllCounted-calls (next {r = q} rs (woken w)) =
        AllCounted-jobs q (wake q w) (λ x. calls x rs) (wake-all q w) (wake-jobs q w)
          (AllCounted-calls rs)
    AllCounted-calls (next {r = q} rs closed_down) =
        AllCounted-jobs q (close q) (λ x. calls x rs) (close-all q) (close-jobs q)
          (AllCounted-calls rs)
    AllCounted-calls (next {r = q} rs (processed env p known busy)) =
        AllCounted-process env (record { queue = q; worker_count = n; handlers = handlers }) p
          (λ x. calls x rs) (λ x. calls x (next rs (processed env p known busy)))
          (record { valid = Steps-IsValid jobs n handlers q rs; known = known; busy = busy })
          (λ x. refl) (AllCounted-calls rs)

    -- In every history of a new queue whose jobs have no attempts yet, the attempt count of a job is
    -- the number of calls of its handler, and for a job that Enqueue has accepted there are never
    -- more than MaxAttempts of them, and fewer as long as it is neither completed nor dead.
    pub calls-bounded :
        (q : Queue Any) (r : Steps n handlers (new_queue jobs) q) (p : ℕ)
        → registered q p ≡ true
        → ((q.jobs p).attempt ≡ pos (calls p r))
          × ((pos (calls p r) ≤ℤ (q.jobs p).max_attempts)
              × ((is_open (q.jobs p).status ≡ false)
                  ⊎ (pos (calls p r + 1) ≤ℤ (q.jobs p).max_attempts)))
    calls-bounded q r p known =
        let v = AllCounted-calls r p in
        (
          v.attempts,
          (
            v.within known,
            elim (Bool-cases (is_open (q.jobs p).status)) [
              | inl o ↦ inr (omega (arith, v.more known o))
              | inr o ↦ inl o
            ],
          ),
        )
