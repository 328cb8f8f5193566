-- ===== src/JobQueue/Dispatch/Load.antt =====
-- How many runs the pending jobs of a queue can still take, and what process (dispatcher.go) leaves of
-- them.
use mathlib.Core.Path.{subst}
use leetsheet.Prelude.{
  ℕ, ◌+◌, ◌<◌, ◌≤◌, ◌≡◌, refl, sym, ap, ◌∙◌, Bool, true, false, ◌∷◌, Option, none, some, arith,
  ◌==◌, if◌then◌else◌, if-cases,
}
use leetsheet.Prelude.Int.{ℤ, pos, pos_part, ◌+ℤ◌, ◌-ℤ◌, ltb_ℤ, +ℤ_parts, -ℤ_parts}
use leetsheet.Prelude.Maps.{lookup, bytes_eq}
use leetsheet.Prelude.Text.{Bytes}
use leetsheet.JobQueue.{
  completed, failed, Job, Queue, less, write, mark, dead_status, ready, place, requeue, dead,
  complete,
}
use leetsheet.JobQueue.Heap.Arrays.{count}
use leetsheet.JobQueue.Heap.Sums.{total, total-count, total-same, total-push}
use leetsheet.JobQueue.Backoff.{backoff}
use leetsheet.JobQueue.Places.{update_self, update-other}
use leetsheet.JobQueue.Valid.Put.{retried}
use leetsheet.JobQueue.Valid.Take.{Took}
use leetsheet.JobQueue.Dispatch.{
  HandlerFunc, Dispatcher, Env, conclude, begin_attempt, run_handler, process, no_handler_message,
}
use leetsheet.JobQueue.Dispatch.Outcomes.{counted}

module _ {Any : Type 0} where
  -- How many more runs a job can take, and one.
  abbrev pub budget : Job Any → ℕ
  budget j = 1 + pos_part (j.max_attempts -ℤ j.attempt)

  -- How many runs the pending jobs can take together.
  abbrev pub load : Queue Any → ℕ
  load q = total (λ x. budget (q.jobs x)) q.pending_heap

  load-write :
      (q : Queue Any) (p : ℕ) (j : Job Any)
      → count p q.pending_heap ≡ 0
      → load (write q p j) ≡ load q
  load-write q p j absent =
      total-same (λ x. budget ((write q p j).jobs x)) (λ x. budget (q.jobs x)) q.pending_heap
        (λ x h. same x h (p == x) refl)
    where
      same :
          (x : ℕ)
          → 0 < count x q.pending_heap
          → (b : Bool) → (p == x) ≡ b
          → budget ((write q p j).jobs x) ≡ budget (q.jobs x)
      same x h true e = absurd (ground (arith, e, h, absent))
      same x h false e = ap budget (update-other q.jobs p x j e)

  load-place : (q : Queue Any) (p now : ℕ) → load (place q p now) ≤ budget (q.jobs p) + load q
  unfolding place
  load-place q p now =
      if-cases (λ (r : Queue Any). load r ≤ budget (q.jobs p) + load q) (ready (q.jobs p) now)
        (λ _. omega (arith, total-push (less q.jobs) (λ x. budget (q.jobs x)) q.pending_heap p))
        (λ _. omega arith)

  load-requeue :
      (q : Queue Any) (p : ℕ) (delay : ℤ) (now later : ℕ)
      → count p q.pending_heap ≡ 0
      → load (requeue q p delay now later) ≤ budget (q.jobs p) + load q
  unfolding requeue
  load-requeue q p delay now later absent =
      let j : Job Any = record (q.jobs p) {
        status = failed;
        run_at = pos_part (pos now +ℤ delay);
      } in
      omega (
        arith,
        load-place (retried q p delay now) p later,
        load-write q p j absent,
        ap budget (update_self q.jobs p j),
      )

  -- What the last test of process leaves to be done again.
  abbrev again : Job Any → ℕ
  again j = if ltb_ℤ j.attempt j.max_attempts then budget j else 0

  load-conclude :
      (env : Env) (q : Queue Any) (p : ℕ) (reply : Option Bytes)
      → count p q.pending_heap ≡ 0
      → load (conclude env q p reply) ≤ again (q.jobs p) + load q
  unfolding conclude complete dead mark
  load-conclude env q p none absent =
      omega (arith, load-write q p (record (q.jobs p) { status = completed }) absent)
  load-conclude env q p (some message) absent =
      let j : Job Any = record (q.jobs p) { last_error = message } in
      let noted : Queue Any = write q p j in
      let e = update_self q.jobs p j in
      if-cases (λ (r : Queue Any). load r ≤ again (q.jobs p) + load q)
        (ltb_ℤ (noted.jobs p).attempt (noted.jobs p).max_attempts)
        (λ more. omega (
          arith,
          load-requeue noted p (backoff env.convert (noted.jobs p).attempt) env.now env.later
              absent,
          load-write q p j absent,
          ap budget e,
          ap (λ (b : Bool). if b then budget (q.jobs p) else 0) (sym (test e) ∙ more),
        ))
        (λ _. omega (
          arith,
          load-write q p j absent,
          load-write noted p (record (noted.jobs p) { status = dead_status }) absent,
        ))
    where
      test :
          {j k : Job Any} → j ≡ k → ltb_ℤ j.attempt j.max_attempts ≡ ltb_ℤ k.attempt k.max_attempts
      test e = ap (λ (k : Job Any). ltb_ℤ k.attempt k.max_attempts) e

  counted-again : (j : Job Any) → again (counted j) + 1 ≤ budget j
  unfolding ◌+ℤ◌
  counted-again j = ground (
    arith,
    -ℤ_parts j.max_attempts j.attempt,
    -ℤ_parts j.max_attempts (j.attempt +ℤ pos 1),
    +ℤ_parts j.attempt (pos 1),
  )

  pub load-process :
      (env : Env) (d : Dispatcher Any) (p : ℕ)
      → count p d.queue.pending_heap ≡ 0
      → load (process env d p) + 1 ≤ budget (d.queue.jobs p) + load d.queue
  unfolding process run_handler begin_attempt dead mark
  load-process env d p absent = by_handler (lookup (d.queue.jobs p).type d.handlers)
    where
      q : Queue Any
      q = d.queue

      by_handler :
          (h : Option (HandlerFunc Any))
          → load (run_handler env h q p) + 1 ≤ budget (q.jobs p) + load q
      by_handler none =
          let j : Job Any = record (q.jobs p) {
            last_error = no_handler_message env.quote (q.jobs p).type;
          } in
          let noted : Queue Any = write q p j in
          omega (
            arith,
            load-write q p j absent,
            load-write noted p (record (noted.jobs p) { status = dead_status }) absent,
          )
      by_handler (some h) =
          let q' : Queue Any = write q p (counted (q.jobs p)) in
          omega (
            arith,
            load-conclude env q' p (h (q'.jobs p)) absent,
            load-write q p (counted (q.jobs p)) absent,
            ap again (update_self q.jobs p (counted (q.jobs p))),
            counted-again (q.jobs p),
          )

  -- Taking a job takes its runs from the load.
  pub load-Took : (q q' : Queue Any) (p : ℕ) → Took q p q' → load q ≡ budget (q'.jobs p) + load q'
  load-Took q q' p took = omega (
    arith,
    total-count (λ x. budget (q.jobs x)) q.pending_heap (p ∷ q'.pending_heap) took.left,
    ap budget took.marked,
    total-same (λ x. budget (q'.jobs x)) (λ x. budget (q.jobs x)) q'.pending_heap
        (λ x h. same x (p == x) refl),
  )
    where
      same : (x : ℕ) (b : Bool) → (p == x) ≡ b → budget (q'.jobs x) ≡ budget (q.jobs x)
      same x true e =
          let at_p : p ≡ x = ground (arith, e) in
          subst (λ y. budget (q'.jobs y) ≡ budget (q.jobs y)) at_p (ap budget took.marked)
      same x false e = ap budget (took.others x e)
