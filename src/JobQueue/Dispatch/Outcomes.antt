-- ===== src/JobQueue/Dispatch/Outcomes.antt =====
-- What process does with a job that a worker has taken.
use mathlib.Core.Path.{subst}
use leetsheet.Prelude.{
  ℕ, ◌≡◌, refl, sym, ap, ◌∙◌, Bool, true, false, Option, none, some, if◌then◌else◌, if-cases,
}
use leetsheet.Prelude.Int.{ℤ, pos, pos_part, ◌+ℤ◌, ltb_ℤ}
use leetsheet.Prelude.Maps.{lookup, bytes_eq}
use leetsheet.Prelude.Text.{Bytes}
use leetsheet.JobQueue.{
  Status, processing, completed, failed, dead_status, Job, Queue, write, place, ready, requeue,
  dead, complete, mark,
}
use leetsheet.JobQueue.Places.{registered, IsValid, registered-write, update_self}
use leetsheet.JobQueue.Valid.Put.{retried, write-IsValid, requeue-IsValid}
use leetsheet.JobQueue.Valid.Take.{complete-IsValid, dead-IsValid}
use leetsheet.JobQueue.Dispatch.{
  HandlerFunc, Dispatcher, Env, conclude, begin_attempt, run_handler, process, no_handler_message,
}

if_both {ℓ κ} :
    {A : Type ℓ} {B : Type κ} (P : A → B → Type 0) {x y : A} {z w : B} (b c : Bool)
    → b ≡ c
    → P x z
    → P y w
    → P (if b then x else y) (if c then z else w)
if_both P true true e f g = f
if_both P true false e f g = cc
if_both P false true e f g = cc
if_both P false false e f g = g

module _ {Any : Type 0} where
  -- Where a reply sends a job: done, to a retry if one is left, or to the dead letters.
  abbrev pub by_reply : Option Bytes → Job Any → Status
  by_reply none j = completed
  by_reply (some message) j = if ltb_ℤ j.attempt j.max_attempts then failed else dead_status

  abbrev pub counted : Job Any → Job Any
  counted j = record j { attempt = j.attempt +ℤ pos 1 }

  -- The documented flow: the attempt is counted before the handler sees the job.
  abbrev pub destined : Option (HandlerFunc Any) → Job Any → Status
  destined none j = dead_status
  destined (some h) j = by_reply (h (counted j)) (counted j)

  pub place-jobs : (q : Queue Any) (p now : ℕ) → (place q p now).jobs ≡ q.jobs
  unfolding place
  place-jobs q p now =
      if-cases (λ (r : Queue Any). r.jobs ≡ q.jobs) (ready (q.jobs p) now) (λ _. refl) (λ _. refl)

  -- A worker holds the job at `p`.
  pub record IsBusy (q : Queue Any) (p : ℕ) : Type 0 where
    pub valid : IsValid q
    pub known : registered q p ≡ true
    pub busy : (q.jobs p).status ≡ processing

  -- A write by the worker that keeps what the queue reads.
  write-IsBusy :
      (q : Queue Any) (p : ℕ) (j : Job Any)
      → (q.jobs p).id ≡ j.id
      → (q.jobs p).status ≡ j.status
      → (q.jobs p).priority ≡ j.priority
      → (q.jobs p).run_at ≡ j.run_at
      → IsBusy q p
      → IsBusy (write q p j) p
  write-IsBusy q p j i s r t v = record {
    valid = write-IsValid q p j i s r t v.valid;
    known = registered-write q p j i p ∙ v.known;
    busy = ap (λ (k : Job Any). k.status) (update_self q.jobs p j) ∙ sym s ∙ v.busy;
  }

  dead-status : (q : Queue Any) (p : ℕ) → ((dead q p).jobs p).status ≡ dead_status
  unfolding dead mark
  dead-status q p = ap (λ (k : Job Any). k.status) (update_self q.jobs p _)

  complete-status : (q : Queue Any) (p : ℕ) → ((complete q p).jobs p).status ≡ completed
  unfolding complete mark
  complete-status q p = ap (λ (k : Job Any). k.status) (update_self q.jobs p _)

  requeue-status :
      (q : Queue Any) (p : ℕ) (delay : ℤ) (now later : ℕ)
      → ((requeue q p delay now later).jobs p).status ≡ failed
  unfolding requeue
  requeue-status q p delay now later =
      ap (λ (m : ℕ → Job Any). (m p).status) (place-jobs (retried q p delay now) p later)
      ∙ ap (λ (k : Job Any). k.status)
          (update_self q.jobs p
            (record (q.jobs p) { status = failed; run_at = pos_part (pos now +ℤ delay) }))

  -- The queue after a job went where `s` says.
  pub record Went (q : Queue Any) (p : ℕ) (s : Status) : Type 0 where
    pub valid : IsValid q
    pub status : (q.jobs p).status ≡ s

  dead-Went : (q : Queue Any) (p : ℕ) → IsBusy q p → Went (dead q p) p dead_status
  dead-Went q p v = record {
    valid = dead-IsValid q p v.valid v.known v.busy;
    status = dead-status q p;
  }

  requeue-Went :
      (q : Queue Any) (p : ℕ) (delay : ℤ) (now later : ℕ)
      → IsBusy q p
      → Went (requeue q p delay now later) p failed
  requeue-Went q p delay now later v = record {
    valid = requeue-IsValid q p delay now later v.valid v.known v.busy;
    status = requeue-status q p delay now later;
  }

  module _ (env : Env) (q : Queue Any) (p : ℕ) (v : IsBusy q p) where
    abbrev noted : Bytes → Queue Any
    noted message = write q p (record (q.jobs p) { last_error = message })

    noted-IsBusy : (message : Bytes) → IsBusy (noted message) p
    noted-IsBusy message =
        write-IsBusy q p (record (q.jobs p) { last_error = message }) refl refl refl refl v

    conclude-Went :
        (reply : Option Bytes) → Went (conclude env q p reply) p (by_reply reply (q.jobs p))
    unfolding conclude
    conclude-Went none = record {
      valid = complete-IsValid q p v.valid v.known v.busy;
      status = complete-status q p;
    }
    conclude-Went (some message) =
        let same : (noted message).jobs p ≡ record (q.jobs p) { last_error = message } =
          update_self q.jobs p (record (q.jobs p) { last_error = message }) in
        let test : ltb_ℤ ((noted message).jobs p).attempt ((noted message).jobs p).max_attempts
            ≡ ltb_ℤ (q.jobs p).attempt (q.jobs p).max_attempts =
          ap (λ (k : Job Any). ltb_ℤ k.attempt k.max_attempts) same in
        if_both (λ r s. Went r p s) _ _ test
          (requeue-Went (noted message) p _ env.now env.later (noted-IsBusy message))
          (dead-Went (noted message) p (noted-IsBusy message))

  started-IsBusy : (q : Queue Any) (p : ℕ) → IsBusy q p → IsBusy (begin_attempt q p) p
  unfolding begin_attempt
  started-IsBusy q p v = write-IsBusy q p (counted (q.jobs p)) refl refl refl refl v

  pub begin_attempt-counted :
      (q : Queue Any) (p : ℕ) → (begin_attempt q p).jobs p ≡ counted (q.jobs p)
  unfolding begin_attempt
  begin_attempt-counted q p = update_self q.jobs p (counted (q.jobs p))

  run_handler-Went :
      (env : Env) (h : Option (HandlerFunc Any)) (q : Queue Any) (p : ℕ)
      → IsBusy q p
      → Went (run_handler env h q p) p (destined h (q.jobs p))
  unfolding run_handler
  run_handler-Went env none q p v =
      let message = no_handler_message env.quote (q.jobs p).type in
      dead-Went (noted env q p v message) p (noted-IsBusy env q p v message)
  run_handler-Went env (some h) q p v =
      let q' = begin_attempt q p in
      subst (λ j. Went (conclude env q' p (h (q'.jobs p))) p (by_reply (h j) j))
        (begin_attempt-counted q p) (conclude-Went env q' p (started-IsBusy q p v) (h (q'.jobs p)))

  -- One run of process on a job that the worker holds: every job ends in its place, and this one
  -- as the documented flow says, with the attempt counted before the handler is called: completed
  -- if it returns nil, failed and waiting again while the count is below MaxAttempts, and dead
  -- otherwise or if its type has no handler.
  pub process-Went :
      (env : Env) (d : Dispatcher Any) (p : ℕ)
      → IsBusy d.queue p
      → Went
          (process env d p)
          p
          (destined (lookup (d.queue.jobs p).type d.handlers) (d.queue.jobs p))
  unfolding process
  process-Went env d p v =
      run_handler-Went env (lookup (d.queue.jobs p).type d.handlers) d.queue p v
