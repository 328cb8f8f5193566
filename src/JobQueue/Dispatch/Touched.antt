-- ===== src/JobQueue/Dispatch/Touched.antt =====
-- Which parts of the queue and of its job process changes.
use leetsheet.Prelude.{ℕ, ◌≡◌, refl, ap, ◌∙◌, false, Option, none, some, ◌==◌, if-cases}
use leetsheet.Prelude.Int.{ℤ, pos, pos_part, ◌+ℤ◌, ltb_ℤ}
use leetsheet.Prelude.Maps.{lookup, bytes_eq}
use leetsheet.Prelude.Text.{Bytes}
use leetsheet.JobQueue.{
  Status, completed, failed, dead_status, Job, Queue, write, mark, ready, place, requeue, dead,
  complete,
}
use leetsheet.JobQueue.Places.{update_self, update-other}
use leetsheet.JobQueue.Valid.Put.{retried}
use leetsheet.JobQueue.Dispatch.{
  Env, HandlerFunc, Dispatcher, no_handler_message, conclude, begin_attempt, run_handler, process,
}
use leetsheet.JobQueue.Dispatch.Outcomes.{place-jobs, begin_attempt-counted, counted}

module _ {Any : Type 0} where
  -- The count of attempts after a run.
  abbrev pub after : Option (HandlerFunc Any) → ℤ → ℤ
  after none n = n
  after (some h) n = n +ℤ pos 1

  -- Only the job at `p` has changed, and neither its ID nor its counts.
  pub record Touched (q q' : Queue Any) (p : ℕ) : Type 0 where
    pub same_all : q'.all ≡ q.all
    pub others : (x : ℕ) → (p == x) ≡ false → q'.jobs x ≡ q.jobs x
    pub same_id : (q'.jobs p).id ≡ (q.jobs p).id
    pub same_attempt : (q'.jobs p).attempt ≡ (q.jobs p).attempt
    pub same_max : (q'.jobs p).max_attempts ≡ (q.jobs p).max_attempts

  Touched-trans : {q r s : Queue Any} {p : ℕ} → Touched q r p → Touched r s p → Touched q s p
  Touched-trans a b = record {
    same_all = b.same_all ∙ a.same_all;
    others = λ x e. b.others x e ∙ a.others x e;
    same_id = b.same_id ∙ a.same_id;
    same_attempt = b.same_attempt ∙ a.same_attempt;
    same_max = b.same_max ∙ a.same_max;
  }

  write-Touched :
      (q : Queue Any) (p : ℕ) (j : Job Any)
      → j.id ≡ (q.jobs p).id
      → j.attempt ≡ (q.jobs p).attempt
      → j.max_attempts ≡ (q.jobs p).max_attempts
      → Touched q (write q p j) p
  write-Touched q p j i a m =
      let self = update_self q.jobs p j in
      record {
        same_all = refl;
        others = λ x e. update-other q.jobs p x j e;
        same_id = ap (λ (k : Job Any). k.id) self ∙ i;
        same_attempt = ap (λ (k : Job Any). k.attempt) self ∙ a;
        same_max = ap (λ (k : Job Any). k.max_attempts) self ∙ m;
      }

  pub place-all : (q : Queue Any) (p now : ℕ) → (place q p now).all ≡ q.all
  unfolding place
  place-all q p now =
      if-cases (λ (r : Queue Any). r.all ≡ q.all) (ready (q.jobs p) now) (λ _. refl) (λ _. refl)

  place-Touched : (q : Queue Any) (p now : ℕ) → Touched q (place q p now) p
  place-Touched q p now =
      let e = place-jobs q p now in
      record {
        same_all = place-all q p now;
        others = λ x _. ap (λ f. f x) e;
        same_id = ap (λ (f : ℕ → Job Any). (f p).id) e;
        same_attempt = ap (λ (f : ℕ → Job Any). (f p).attempt) e;
        same_max = ap (λ (f : ℕ → Job Any). (f p).max_attempts) e;
      }

  mark-Touched : (q : Queue Any) (p : ℕ) (s : Status) → Touched q (mark q p s) p
  unfolding mark
  mark-Touched q p s = write-Touched q p (record (q.jobs p) { status = s }) refl refl refl

  dead-Touched : (q : Queue Any) (p : ℕ) → Touched q (dead q p) p
  unfolding dead
  dead-Touched q p =
      let t = mark-Touched q p dead_status in
      record {
        same_all = t.same_all;
        others = t.others;
        same_id = t.same_id;
        same_attempt = t.same_attempt;
        same_max = t.same_max;
      }

  requeue-Touched :
      (q : Queue Any) (p : ℕ) (delay : ℤ) (now later : ℕ)
      → Touched q (requeue q p delay now later) p
  unfolding requeue
  requeue-Touched q p delay now later =
      Touched-trans
        (write-Touched q p
          (record (q.jobs p) { status = failed; run_at = pos_part (pos now +ℤ delay) }) refl refl
          refl)
        (place-Touched (retried q p delay now) p later)

  conclude-Touched :
      (env : Env) (q : Queue Any) (p : ℕ) (reply : Option Bytes)
      → Touched q (conclude env q p reply) p
  unfolding conclude complete
  conclude-Touched env q p none = mark-Touched q p completed
  conclude-Touched env q p (some message) =
      let q' = write q p (record (q.jobs p) { last_error = message }) in
      Touched-trans (write-Touched q p (record (q.jobs p) { last_error = message }) refl refl refl)
        (if-cases (λ r. Touched q' r p) (ltb_ℤ (q'.jobs p).attempt (q'.jobs p).max_attempts)
          (λ _. requeue-Touched q' p _ env.now env.later) (λ _. dead-Touched q' p))

  begin_attempt-all : (q : Queue Any) (p : ℕ) → (begin_attempt q p).all ≡ q.all
  unfolding begin_attempt
  begin_attempt-all q p = refl

  begin_attempt-other :
      (q : Queue Any) (p x : ℕ) → (p == x) ≡ false → (begin_attempt q p).jobs x ≡ q.jobs x
  unfolding begin_attempt
  begin_attempt-other q p x e = update-other q.jobs p x (counted (q.jobs p)) e

  -- The queue and the job at `p` after a run of process by a handler or by none.
  pub record Ran (h : Option (HandlerFunc Any)) (q q' : Queue Any) (p : ℕ) : Type 0 where
    pub same_all : q'.all ≡ q.all
    pub others : (x : ℕ) → (p == x) ≡ false → q'.jobs x ≡ q.jobs x
    pub same_id : (q'.jobs p).id ≡ (q.jobs p).id
    pub same_max : (q'.jobs p).max_attempts ≡ (q.jobs p).max_attempts
    pub attempts : (q'.jobs p).attempt ≡ after h (q.jobs p).attempt

  run_handler-Ran :
      (env : Env) (h : Option (HandlerFunc Any)) (q : Queue Any) (p : ℕ)
      → Ran h q (run_handler env h q p) p
  unfolding run_handler
  run_handler-Ran env none q p =
      let j : Job Any = record (q.jobs p) {
        last_error = no_handler_message env.quote (q.jobs p).type;
      } in
      let t = Touched-trans (write-Touched q p j refl refl refl) (dead-Touched (write q p j) p) in
      record {
        same_all = t.same_all;
        others = t.others;
        same_id = t.same_id;
        same_max = t.same_max;
        attempts = t.same_attempt;
      }
  run_handler-Ran env (some h) q p =
      let q' = begin_attempt q p in
      let t = conclude-Touched env q' p (h (q'.jobs p)) in
      let e = begin_attempt-counted q p in
      record {
        same_all = t.same_all ∙ begin_attempt-all q p;
        others = λ x n. t.others x n ∙ begin_attempt-other q p x n;
        same_id = t.same_id ∙ ap (λ (k : Job Any). k.id) e;
        same_max = t.same_max ∙ ap (λ (k : Job Any). k.max_attempts) e;
        attempts = t.same_attempt ∙ ap (λ (k : Job Any). k.attempt) e;
      }

  pub process-Ran :
      (env : Env) (d : Dispatcher Any) (p : ℕ)
      → Ran (lookup (d.queue.jobs p).type d.handlers) d.queue (process env d p) p
  unfolding process
  process-Ran env d p = run_handler-Ran env (lookup (d.queue.jobs p).type d.handlers) d.queue p
