-- ===== src/JobQueue/Attempts.antt =====
-- How often the handler of a job is called, over a whole history of the queue.
pub mod Steps
pub mod History
use leetsheet.Prelude.{
  ◌⊎◌, ℕ, zero, suc, ◌+◌, ◌≤◌, ◌<◌, ◌≡◌, refl, sym, ap, ◌∙◌, Bool, true, false, List, [], ◌∷◌,
  Option, none, some, arith, ◌==◌, if◌then◌else◌, if-cases, inl, inr, Bool-cases,
}
use mathlib.Core.Path.{ap₂, subst}
use leetsheet.Prelude.Int.{ℤ, pos, pos_part, neg_part, ◌+ℤ◌, ◌≤ℤ◌, ltb_ℤ, leb_ℤ}
use leetsheet.Prelude.Maps.{lookup, bytes_eq}
use leetsheet.Prelude.Text.{Bytes, str_eq}
use leetsheet.JobQueue.{
  is_some, Error, Status, pending, processing, completed, failed, dead_status, Job, Queue,
  new_queue, write, mark, ready, place, accept, mend, enqueue, dequeue_turn, requeue, dead,
  complete,
}
use leetsheet.JobQueue.Dispatch.Touched.{after, place-all, Ran, process-Ran}
use leetsheet.JobQueue.Places.{
  IsValid, registered-write, registered, is_at, waits, update_self, update-other,
}
use leetsheet.JobQueue.Valid.Put.{
  entered, unregistered, registered-other, registered_self, mend-lookup, not_known, mend-IsValid,
}
use leetsheet.JobQueue.Valid.Take.{Turned, Took, dequeue_turn_lem}
use leetsheet.JobQueue.Dispatch.{Dispatcher, Env, HandlerFunc, conclude, begin_attempt, process}
use leetsheet.JobQueue.Dispatch.Outcomes.{
  place-jobs, IsBusy, Went, process-Went, by_reply, counted, destined,
}

abbrev pub is_open : Status → Bool
is_open pending = true
is_open processing = true
is_open failed = true
is_open completed = false
is_open dead_status = false

pub was_open : (b : Bool) (s : Status) → waits b s ≡ 1 → is_open s ≡ true
was_open b s h = ground arith

pub clash : false ≡ true → ⊥
clash h = cc

one_more : (k : ℕ) → pos k +ℤ pos 1 ≡ pos (suc k)
unfolding ◌+ℤ◌
one_more k = ground arith

below_max : (k : ℕ) (m : ℤ) → ltb_ℤ (pos k +ℤ pos 1) m ≡ true → pos (suc (suc k)) ≤ℤ m
unfolding ◌+ℤ◌
below_max k m h = ground arith

module _ {Any : Type 0} where
  -- A job whose handler has been called `k` times; `known` says whether the queue has accepted it.
  pub record Counted (known : Bool) (j : Job Any) (k : ℕ) : Type 0 where
    pub attempts : j.attempt ≡ pos k
    pub fresh : known ≡ false → k ≡ 0
    pub positive : known ≡ true → pos 1 ≤ℤ j.max_attempts
    pub within : known ≡ true → pos k ≤ℤ j.max_attempts
    pub more : known ≡ true → is_open j.status ≡ true → pos (suc k) ≤ℤ j.max_attempts

  -- Another status, which is not open unless the old one is.
  pub Counted-same :
      (b b' : Bool) (j j' : Job Any) (k : ℕ)
      → b' ≡ b
      → j'.attempt ≡ j.attempt
      → j'.max_attempts ≡ j.max_attempts
      → (b' ≡ true → is_open j'.status ≡ true → is_open j.status ≡ true)
      → Counted b j k
      → Counted b' j' k
  Counted-same b b' j j' k e a m open_before v = record {
    attempts = a ∙ v.attempts;
    fresh = λ h. v.fresh (sym e ∙ h);
    positive = λ h. rw m (v.positive (sym e ∙ h));
    within = λ h. rw m (v.within (sym e ∙ h));
    more = λ h o. rw m (v.more (sym e ∙ h) (open_before h o));
  }

  reply_open :
      (reply : Option Bytes) (j : Job Any)
      → is_open (by_reply reply j) ≡ true
      → ltb_ℤ j.attempt j.max_attempts ≡ true
  reply_open none j o = absurd (clash o)
  reply_open (some message) j o = elim (Bool-cases (ltb_ℤ j.attempt j.max_attempts)) [
    | inl e ↦ e
    | inr e ↦ absurd (clash (rw e at o))
  ]

  -- One more call of the handler of a job that is being processed.
  Counted-called :
      (j j' : Job Any) (k : ℕ) (reply : Option Bytes)
      → j.status ≡ processing
      → j'.attempt ≡ j.attempt +ℤ pos 1
      → j'.max_attempts ≡ j.max_attempts
      → j'.status ≡ by_reply reply (counted j)
      → Counted true j k
      → Counted true j' (suc k)
  Counted-called j j' k reply busy a m s v = record {
    attempts = a ∙ ap (λ n. n +ℤ pos 1) v.attempts ∙ one_more k;
    fresh = λ h. absurd (clash (sym h));
    positive = λ _. rw m (v.positive refl);
    within = λ _. rw m (v.more refl (ap is_open busy));
    more = λ _ o.
        let more_left = reply_open reply (counted j) (sym (ap is_open s) ∙ o) in
        rw m (below_max k j.max_attempts (rw v.attempts at more_left));
  }

  -- Whether a run calls a handler.
  abbrev pub called : Option (HandlerFunc Any) → ℕ
  called none = 0
  called (some h) = 1

  -- A run of process on a job that is being processed, by a handler or by none.
  pub Counted-ran :
      (h : Option (HandlerFunc Any)) (j j' : Job Any) (k k' : ℕ)
      → j.status ≡ processing
      → j'.attempt ≡ after h j.attempt
      → j'.max_attempts ≡ j.max_attempts
      → j'.status ≡ destined h j
      → k' ≡ k + called h
      → Counted true j k
      → Counted true j' k'
  Counted-ran none j j' k k' busy a m s e v =
      let same : k' ≡ k = omega arith in
      rw same
        (Counted-same true true j j' k refl a m (λ _ o. absurd (clash (ap is_open (sym s) ∙ o))) v)
  Counted-ran (some h) j j' k k' busy a m s e v =
      let next : k' ≡ suc k = omega arith in
      rw next (Counted-called j j' k (h (counted j)) busy a m s v)

  -- Every job has been handled as often as `c` says.
  abbrev pub AllCounted : Queue Any → (ℕ → ℕ) → Type 0
  AllCounted q c = (x : ℕ) → Counted (registered q x) (q.jobs x) (c x)

  pub registered-eq :
      (q q' : Queue Any) (x : ℕ)
      → q'.all ≡ q.all
      → (q'.jobs x).id ≡ (q.jobs x).id
      → registered q' x ≡ registered q x
  registered-eq q q' x a i = ap₂ (λ k l. is_at (lookup k l) x) i a

  -- A step after which all jobs are the same.
  pub AllCounted-jobs :
      (q q' : Queue Any) (c : ℕ → ℕ)
      → q'.all ≡ q.all
      → q'.jobs ≡ q.jobs
      → AllCounted q c
      → AllCounted q' c
  AllCounted-jobs q q' c a e v x =
      Counted-same (registered q x) (registered q' x) (q.jobs x) (q'.jobs x) (c x)
        (registered-eq q q' x a (ap (λ (f : ℕ → Job Any). (f x).id) e))
        (ap (λ (f : ℕ → Job Any). (f x).attempt) e) (ap (λ (f : ℕ → Job Any). (f x).max_attempts) e)
        (λ h o. ap (λ (f : ℕ → Job Any). is_open (f x).status) (sym e) ∙ o) (v x)

  -- A step that changes the job at `p` only: what is said of `p` and of the others is put together.
  pub AllCounted-split :
      (q q' : Queue Any) (c c' : ℕ → ℕ) (p : ℕ)
      → ((x : ℕ) → (p == x) ≡ false → registered q' x ≡ registered q x)
      → ((x : ℕ) → (p == x) ≡ false → q'.jobs x ≡ q.jobs x)
      → ((x : ℕ) → (p == x) ≡ false → c' x ≡ c x)
      → Counted (registered q' p) (q'.jobs p) (c' p)
      → AllCounted q c
      → AllCounted q' c'
  AllCounted-split q q' c c' p r e n at_p v x = elim (Bool-cases (p == x)) [
    | inl h ↦
        let same : p ≡ x = ground arith in
        subst (λ y. Counted (registered q' y) (q'.jobs y) (c' y)) same at_p
    | inr h ↦ rw (r x h, e x h, n x h) (v x)
  ]
