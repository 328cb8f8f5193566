-- ===== src/JobQueue/Workers/Held.antt =====
-- Where every job of a queue is, the workers counted: in the lists of the queue, or in a worker's hands.
use mathlib.Core.Path.{ap₂, subst}
use leetsheet.Prelude.{
  ℕ, zero, suc, ◌+◌, ◌<◌, ◌≡◌, refl, sym, ap, ◌∙◌, Bool, true, false, not, List, [], ◌∷◌, Option,
  none, some, arith, inl, inr, ◌==◌, get_elem?, set, replicate, if◌then◌else◌, if-cases, Bool-cases,
}
use leetsheet.Prelude.Int.{ℤ, pos, leb_ℤ}
use leetsheet.Prelude.Maps.{lookup, bytes_eq}
use leetsheet.Prelude.Sums.{sum_of, sum_of-set, sum_of-at}
use leetsheet.Prelude.Text.{Bytes, str_eq}
use leetsheet.JobQueue.{
  Status, processing, Job, Queue, Error, Turn, refused, parked, new_queue, enqueue, mend, accept,
  promote, ping_notify, dequeue_turn, Wake, wake, notified, cancelled, queue_gone, close, is_some,
}
use leetsheet.JobQueue.Heap.Arrays.{is}
use leetsheet.JobQueue.Places.{registered, waits, IsValid, all_same, update_self, update-other}
use leetsheet.JobQueue.Valid.Put.{
  entered, unregistered, registered-other, registered_self, mend-lookup, not_known, mend-IsValid,
  enqueue-IsValid,
}
use leetsheet.JobQueue.Valid.Take.{
  Turned, dequeue_turn_lem, close-IsValid, promote-IsValid, ping_notify-IsValid,
}
use leetsheet.JobQueue.Dispatch.{Dispatcher, Env, HandlerFunc, process}
use leetsheet.JobQueue.Dispatch.Outcomes.{
  Went, process-Went, by_reply, destined, counted, place-jobs,
}
use leetsheet.JobQueue.Dispatch.Touched.{Ran, process-Ran, place-all}
use leetsheet.JobQueue.Attempts.{registered-eq}
use leetsheet.JobQueue.Life.{wake-IsValid, new_queue-IsValid}
use leetsheet.JobQueue.Workers.{
  Worker, looking, waiting, working, returned, after_turn, after_wake, System, Step, produced,
  promoted, pinged, looked, woken, processed, closed_down, Steps, here, next,
}

-- How many times a worker has the job at `x` in its hands: once or not at all.
abbrev pub has : ℕ → Worker → ℕ
has x (working p) = is p x
has x looking = 0
has x waiting = 0
has x returned = 0

-- How many workers should have a job in their hands: one while it is being processed.
abbrev pub hands : Bool → Status → ℕ
hands true processing = 1
hands _ _ = 0

hands-waiting : (b : Bool) (s : Status) → waits b s ≡ 1 → hands b s ≡ 0
hands-waiting b s h = ground arith

hands_busy : (b : Bool) (s : Status) → 0 < hands b s → (b ≡ true) × (s ≡ processing)
hands_busy true processing h = (refl, refl)
hands_busy b s h = (ground arith, ground arith)

module _ {Any : Type 0} where
  abbrev hands_on : Queue Any → ℕ → ℕ
  hands_on q x = hands (registered q x) (q.jobs x).status

  hands_on-same :
      (q q' : Queue Any) (x : ℕ)
      → q'.all ≡ q.all
      → q'.jobs x ≡ q.jobs x
      → hands_on q' x ≡ hands_on q x
  hands_on-same q q' x all e =
      ap₂ hands (registered-eq q q' x all (ap (λ (j : Job Any). j.id) e))
        (ap (λ (j : Job Any). j.status) e)

  mend-hands : (q : Queue Any) (p x : ℕ) → hands_on (mend q p) x ≡ hands_on q x
  unfolding mend
  mend-hands q p x =
      if-cases (λ (r : Queue Any). hands_on r x ≡ hands_on q x)
        (leb_ℤ (q.jobs p).max_attempts (pos 0))
        (λ _. sym (all_same q p (record (q.jobs p) { max_attempts = pos 1 }) refl hands refl x))
        (λ _. refl)

  entered-hands :
      (q : Queue Any) (p now x : ℕ)
      → lookup (q.jobs p).id q.all ≡ none
      → IsValid q
      → hands_on (entered q p now) x ≡ hands_on q x
  entered-hands q p now x fresh v = elim (Bool-cases (p == x)) [
    | inl e ↦
        let at_p : p ≡ x = ground arith in
        subst (λ y. hands_on (entered q p now) y ≡ hands_on q y) at_p
          (ap₂ hands (registered_self q p now fresh v)
              (ap (λ (j : Job Any). j.status) (update_self q.jobs p _))
            ∙ sym (ap (λ b. hands b (q.jobs p).status) (unregistered q p now fresh v)))
    | inr e ↦
        ap₂ hands (registered-other q p now fresh v x e)
          (ap (λ (j : Job Any). j.status) (update-other q.jobs p x _ e))
  ]

  accept-hands :
      (q : Queue Any) (p now later x : ℕ)
      → lookup (q.jobs p).id q.all ≡ none
      → IsValid q
      → hands_on (accept q p now later) x ≡ hands_on q x
  unfolding accept
  accept-hands q p now later x fresh v =
      let r = entered q p now in
      hands_on-same r (accept q p now later) x (place-all r p later)
        (ap (λ f. f x) (place-jobs r p later))
      ∙ entered-hands q p now x fresh v

  enqueue-hands :
      (q : Queue Any) (p now later x : ℕ)
      → IsValid q
      → hands_on (enqueue q p now later).0 x ≡ hands_on q x
  unfolding enqueue
  enqueue-hands q p now later x v =
      let mended = mend-hands q p x in
      if-cases P (str_eq (q.jobs p).id []) (λ _. refl)
        λ _.
          if-cases P (str_eq (q.jobs p).type []) (λ _. refl)
            λ _.
              if-cases P q.closed (λ _. mended)
                λ _.
                  if-cases P (is_some (lookup (q.jobs p).id q.all)) (λ _. mended)
                    λ k.
                      accept-hands (mend q p) p now later x
                        (mend-lookup q p ∙ not_known (lookup (q.jobs p).id q.all) k)
                        (mend-IsValid q p v)
                      ∙ mended
    where
      P : Queue Any × Option Error → Type 0
      P r = hands_on r.0 x ≡ hands_on q x

  -- Every job is in its place: in the lists of the queue as its status says, and, while it is being
  -- processed, in the hands of exactly one worker.
  pub record IsKept (s : System Any) : Type 0 where
    pub valid : IsValid s.queue
    pub held :
        (x : ℕ) → sum_of (has x) s.workers ≡ hands (registered s.queue x) (s.queue.jobs x).status

  -- A step of the queue alone that changes nobody's hands.
  alone :
      (s : System Any) (q : Queue Any) (due : Bool)
      → IsValid q
      → ((x : ℕ) → hands_on q x ≡ hands_on s.queue x)
      → IsKept s
      → IsKept (record { queue = q; workers = s.workers; ping_due = due })
  alone s q due valid same v = record { valid = valid; held = λ x. v.held x ∙ sym (same x) }

  idle-hands :
      (q : Queue Any) (t : Turn) (x : ℕ)
      → t ≡ (if q.closed then refused else parked)
      → has x (after_turn t) ≡ 0
  unfolding after_turn
  idle-hands q t x e = elim (Bool-cases q.closed) [
    | inl c ↦ ap (λ u. has x (after_turn u)) (e ∙ ap (λ b. if b then refused else parked) c)
    | inr c ↦ ap (λ u. has x (after_turn u)) (e ∙ ap (λ b. if b then refused else parked) c)
  ]

  looked-IsKept :
      (s : System Any) (i : ℕ) (h : List ℕ) (q : Queue Any) (t : Turn)
      → get_elem? s.workers i ≡ some looking
      → IsKept s
      → Turned h s.queue q t
      → IsKept (record s { queue = q; workers = set s.workers i (after_turn t) })
  unfolding after_turn
  looked-IsKept s i [] q t at_i v (same, e) = record {
    valid = subst IsValid (sym same) v.valid;
    held = λ x. omega (
      arith,
      sum_of-set (has x) s.workers i looking (after_turn t) at_i,
      idle-hands s.queue t x e,
      v.held x,
      ap (λ r. hands_on r x) same,
    );
  }
  looked-IsKept s i (p ∷ a) q t at_i v (e, took) = record {
    valid = took.valid;
    held = λ x. omega (
      arith,
      sum_of-set (has x) s.workers i looking (after_turn t) at_i,
      ap (λ u. has x (after_turn u)) e,
      v.held x,
      taken_up x,
    );
  }
    where
      taken_up : (x : ℕ) → hands_on q x ≡ hands_on s.queue x + is p x
      taken_up x = elim (Bool-cases (p == x)) [
        | inl same ↦
            let at_p : p ≡ x = ground arith in
            let self : is p p ≡ 1 = ground arith in
            subst (λ y. hands_on q y ≡ hands_on s.queue y + is p y) at_p
              (omega (
                arith,
                self,
                ap₂ hands took.known took.busy,
                hands-waiting (registered s.queue p) (s.queue.jobs p).status took.waited,
              ))
        | inr other ↦
            let none_more : is p x ≡ 0 = rw other in
            omega (arith, none_more, hands_on-same s.queue q x took.same_all (took.others x other))
      ]

  not_busy : (h : Option (HandlerFunc Any)) (j : Job Any) (b : Bool) → hands b (destined h j) ≡ 0
  not_busy none j b = ground arith
  not_busy (some h) j b = reply (h (counted j))
    where
      reply : (r : Option Bytes) → hands b (by_reply r (counted j)) ≡ 0
      reply none = ground arith
      reply (some m) = ground arith

  processed-IsKept :
      (s : System Any) (i p : ℕ) (env : Env) (n : ℤ) (handlers : List (Bytes × HandlerFunc Any))
      → get_elem? s.workers i ≡ some (working p)
      → IsKept s
      → IsKept (record s {
        queue = process env (record { queue = s.queue; worker_count = n; handlers = handlers }) p;
        workers = set s.workers i looking;
      })
  processed-IsKept s i p env n handlers at_i v = record {
    valid = went.valid;
    held = λ x.
        omega
          (arith, sum_of-set (has x) s.workers i (working p) looking at_i, v.held x, put_down x);
  }
    where
      d : Dispatcher Any
      d = record { queue = s.queue; worker_count = n; handlers = handlers }

      self : is p p ≡ 1
      self = ground arith

      in_hand : (registered s.queue p ≡ true) × ((s.queue.jobs p).status ≡ processing)
      in_hand =
          hands_busy (registered s.queue p) (s.queue.jobs p).status
            (omega (arith, self, sum_of-at (has p) s.workers i (working p) at_i, v.held p))

      went :
          Went
            (process env d p)
            p
            (destined (lookup (s.queue.jobs p).type handlers) (s.queue.jobs p))
      went = process-Went env d p (record { valid = v.valid; known = in_hand.0; busy = in_hand.1 })

      ran : Ran (lookup (s.queue.jobs p).type handlers) s.queue (process env d p) p
      ran = process-Ran env d p

      put_down : (x : ℕ) → hands_on (process env d p) x + is p x ≡ hands_on s.queue x
      put_down x = elim (Bool-cases (p == x)) [
        | inl same ↦
            let at_p : p ≡ x = ground arith in
            subst (λ y. hands_on (process env d p) y + is p y ≡ hands_on s.queue y) at_p
              (omega (
                arith,
                self,
                ap₂ hands in_hand.0 in_hand.1,
                ap (hands (registered (process env d p) p)) went.status
                    ∙ not_busy (lookup (s.queue.jobs p).type handlers) (s.queue.jobs p)
                        (registered (process env d p) p),
              ))
        | inr other ↦
            let none_more : is p x ≡ 0 = rw other in
            omega (
              arith,
              none_more,
              hands_on-same s.queue (process env d p) x ran.same_all (ran.others x other),
            )
      ]

  Step-IsKept :
      (n : ℤ) (handlers : List (Bytes × HandlerFunc Any)) {s t : System Any}
      → Step n handlers s t
      → IsKept s
      → IsKept t
  unfolding promote ping_notify close wake after_wake
  Step-IsKept n handlers {s} (produced p now later) v =
      alone s (enqueue s.queue p now later).0 s.ping_due
        (enqueue-IsValid s.queue p now later v.valid)
        (λ x. enqueue-hands s.queue p now later x v.valid) v
  Step-IsKept n handlers {s} (promoted now settled) v =
      alone s (promote s.queue now).0 (promote s.queue now).1 (promote-IsValid s.queue now v.valid)
        (λ x. refl) v
  Step-IsKept n handlers {s} (pinged due) v =
      alone s (ping_notify s.queue) false (ping_notify-IsValid s.queue v.valid) (λ x. refl) v
  Step-IsKept n handlers {s} (looked i at_i) v =
      looked-IsKept s i s.queue.pending_heap (dequeue_turn s.queue).0 (dequeue_turn s.queue).1 at_i
        v (dequeue_turn_lem s.queue v.valid)
  Step-IsKept n handlers {s} (woken i w ctx_done at_i e) v = record {
    valid = wake-IsValid s.queue w v.valid;
    held = λ x. omega (
      arith,
      sum_of-set (has x) s.workers i waiting (after_wake w) at_i,
      empty_handed x w,
      v.held x,
      untouched x w,
    );
  }
    where
      empty_handed : (x : ℕ) (w : Wake) → has x (after_wake w) ≡ 0
      empty_handed x notified = refl
      empty_handed x cancelled = refl
      empty_handed x queue_gone = refl

      untouched : (x : ℕ) (w : Wake) → hands_on (wake s.queue w) x ≡ hands_on s.queue x
      untouched x notified = refl
      untouched x cancelled = refl
      untouched x queue_gone = refl
  Step-IsKept n handlers {s} (processed i p env at_i) v =
      processed-IsKept s i p env n handlers at_i v
  Step-IsKept n handlers {s} closed_down v =
      alone s (close s.queue) s.ping_due (close-IsValid s.queue v.valid)
        (λ x.
          if-cases (λ (r : Queue Any). hands_on r x ≡ hands_on s.queue x) (not s.queue.closed)
            (λ _. refl) (λ _. refl))
        v

  new_system-IsKept :
      (blank : ℕ → Job Any) (k : ℕ)
      → IsKept (record { queue = new_queue blank; workers = replicate k looking; ping_due = false })
  unfolding new_queue lookup
  new_system-IsKept blank k = record { valid = new_queue-IsValid blank; held = λ x. free x k }
    where
      free : (x k : ℕ) → sum_of (has x) (replicate k looking) ≡ 0
      free x zero = refl
      free x (suc k) = omega (arith, free x k)

  -- Whatever the producers, the scheduler and `k` workers of a dispatcher do, from a new queue on:
  -- each job that Enqueue accepted is in exactly one place, the one that its status names. Pending
  -- and failed jobs stand once in the heap or in the scheduled list, dead ones once in the dead-letter
  -- queue, and a job that is being processed is in the hands of exactly one worker; other jobs are in
  -- none of these. The heap and the scheduled list are in order.
  pub Steps-IsKept :
      (n : ℤ) (handlers : List (Bytes × HandlerFunc Any)) (blank : ℕ → Job Any) (k : ℕ)
      (t : System Any)
      → Steps n handlers
          (record { queue = new_queue blank; workers = replicate k looking; ping_due = false })
          t
      → IsKept t
  Steps-IsKept n handlers blank k t past = go past
    where
      go :
          {t : System Any}
          → Steps n handlers
              (record { queue = new_queue blank; workers = replicate k looking; ping_due = false })
              t
          → IsKept t
      go here = new_system-IsKept blank k
      go (next r st) = Step-IsKept n handlers st (go r)
