-- ===== src/JobQueue/Dispatch/Drain.antt =====
-- The worker loop of dispatcher.go (runWorker) on a closed queue.
use mathlib.Core.Path.{ap₂}
use leetsheet.Prelude.{
  ℕ, zero, suc, ◌<◌, ◌≡◌, refl, ap, ◌∙◌, true, List, [], ◌∷◌, Option, none, some, arith,
  if◌then◌else◌, if-cases,
}
use leetsheet.Prelude.Int.{ℤ, ltb_ℤ}
use leetsheet.Prelude.Maps.{lookup, bytes_eq}
use leetsheet.Prelude.Text.{Bytes}
use leetsheet.JobQueue.{
  Queue, Turn, refused, parked, dequeue_turn, write, mark, ready, place, requeue, dead, complete,
}
use leetsheet.JobQueue.Backoff.{backoff}
use leetsheet.JobQueue.Places.{IsValid, waits}
use leetsheet.JobQueue.Valid.Put.{retried}
use leetsheet.JobQueue.Valid.Take.{Turned, dequeue_turn_lem}
use leetsheet.JobQueue.Dispatch.{
  HandlerFunc, Dispatcher, Env, Round, left, conclude, begin_attempt, run_handler, process,
  after_round, worker_round, run_worker,
}
use leetsheet.JobQueue.Dispatch.Outcomes.{IsBusy, process-Went, counted}
use leetsheet.JobQueue.Dispatch.Load.{load, load-process, load-Took}

module _ {Any : Type 0} where
  place-closed : (q : Queue Any) (p now : ℕ) → (place q p now).closed ≡ q.closed
  unfolding place
  place-closed q p now =
      if-cases (λ (r : Queue Any). r.closed ≡ q.closed) (ready (q.jobs p) now) (λ _. refl)
        (λ _. refl)

  conclude-closed :
      (env : Env) (q : Queue Any) (p : ℕ) (reply : Option Bytes)
      → (conclude env q p reply).closed ≡ q.closed
  unfolding conclude complete dead mark requeue
  conclude-closed env q p none = refl
  conclude-closed env q p (some message) =
      let noted : Queue Any = write q p (record (q.jobs p) { last_error = message }) in
      if-cases (λ (r : Queue Any). r.closed ≡ q.closed)
        (ltb_ℤ (noted.jobs p).attempt (noted.jobs p).max_attempts)
        (λ _.
          place-closed (retried noted p (backoff env.convert (noted.jobs p).attempt) env.now) p
            env.later)
        (λ _. refl)

  process-closed :
      (env : Env) (d : Dispatcher Any) (p : ℕ) → (process env d p).closed ≡ d.queue.closed
  unfolding process run_handler begin_attempt dead mark
  process-closed env d p = by_handler (lookup (d.queue.jobs p).type d.handlers)
    where
      by_handler :
          (h : Option (HandlerFunc Any)) → (run_handler env h d.queue p).closed ≡ d.queue.closed
      by_handler none = refl
      by_handler (some h) =
          let q' : Queue Any = write d.queue p (counted (d.queue.jobs p)) in
          conclude-closed env q' p (h (q'.jobs p))

  -- The worker has returned, and nothing is pending.
  pub record Drained (r : Queue Any × Round) : Type 0 where
    pub returned : r.1 ≡ left
    pub empty : r.0.pending_heap ≡ []
    pub valid : IsValid r.0

  -- One round, if the rounds after it drain what it leaves.
  round-Drained :
      (next : Queue Any → Queue Any × Round) (env : Env) (n : ℤ)
      (handlers : List (Bytes × HandlerFunc Any)) (k : ℕ) (q q' : Queue Any) (h : List ℕ) (t : Turn)
      → ((r : Queue Any) → IsValid r → r.closed ≡ true → load r < k → Drained (next r))
      → IsValid q
      → q.closed ≡ true
      → load q < suc k
      → q.pending_heap ≡ h
      → Turned h q q' t
      → Drained (
          after_round next (
            worker_round env (record { queue = q; worker_count = n; handlers = handlers }) (q', t)))
  unfolding after_round worker_round
  round-Drained next env n handlers k q q' [] t later v shut fuel e turned =
      let refuses : t ≡ refused = turned.1 ∙ ap (λ b. if b then refused else parked) shut in
      rw (refuses, turned.0) (record { returned = refl; empty = e; valid = v })
  round-Drained next env n handlers k q q' (p ∷ a) t later v shut fuel e turned =
      let took = turned.1 in
      let d : Dispatcher Any = record { queue = q'; worker_count = n; handlers = handlers } in
      let busy : IsBusy q' p = record {
        valid = took.valid;
        known = took.known;
        busy = took.busy;
      } in
      let nowhere = took.valid.waiting p ∙ ap₂ waits took.known took.busy in
      rw (turned.0) (
        later (process env d p) (process-Went env d p busy).valid
          (process-closed env d p ∙ took.same_closed ∙ shut)
          (omega (arith, load-process env d p (omega (arith, nowhere)), load-Took q q' p took)))

  -- A worker that is alone with a closed queue in which every job is in its place returns after it has
  -- worked on every pending job, also on those that become pending again meanwhile: it neither waits
  -- nor runs for ever, and needs no more rounds than the pending jobs have runs left, and one each.
  pub run_worker-Drained :
      (env : ℕ → Env) (n : ℤ) (handlers : List (Bytes × HandlerFunc Any)) (k : ℕ) (q : Queue Any)
      → IsValid q
      → q.closed ≡ true
      → load q < k
      → Drained (run_worker k env n handlers q)
  unfolding run_worker
  run_worker-Drained env n handlers zero q v shut fuel = absurd (omega arith)
  run_worker-Drained env n handlers (suc k) q v shut fuel =
      round-Drained (run_worker k env n handlers) (env k) n handlers k q (dequeue_turn q).0
        q.pending_heap (dequeue_turn q).1 (run_worker-Drained env n handlers k) v shut fuel refl
        (dequeue_turn_lem q v)
