-- ===== src/JobQueue/Workers/Attended.antt =====
-- Pending jobs of a queue and the workers that come for them, in every history.
use leetsheet.Prelude.{
  ℕ, zero, suc, ◌<◌, ◌≡◌, ◌≢◌, refl, sym, ap, ◌∙◌, true, false, List, [], ◌∷◌, some, arith, inl,
  inr, ◌⊎◌, ◌==◌, length, get_elem?, set, if-cases, Bool-cases,
}
use mathlib.Core.Path.{subst}
use leetsheet.Prelude.Int.{ℤ}
use leetsheet.Prelude.Maps.{bytes_eq}
use leetsheet.Prelude.Text.{Bytes}
use leetsheet.JobQueue.{
  Job, Queue, Turn, new_queue, enqueue, less, ping_notify, dequeue_turn, take_from, wake, notified,
  cancelled, queue_gone, close,
}
use leetsheet.JobQueue.Heap.{pop}
use leetsheet.JobQueue.Dispatch.{HandlerFunc}
use leetsheet.JobQueue.Workers.{
  Worker, looking, waiting, working, returned, after_turn, after_wake, is_active, System, Step,
  produced, promoted, pinged, looked, woken, processed, closed_down, Steps, here, next, Active,
}
use leetsheet.JobQueue.Workers.Rung.{Rung, enqueue-Rung, promote-cases, promote-notify, close-Rung}

-- If a job is pending, a signal is set or due, or a worker is active.
abbrev IsAttended : {Any : Type 0} → System Any → Type 0
IsAttended s =
    (0 < length s.queue.pending_heap)
    → (s.queue.notify ≡ true) ⊎ ((s.ping_due ≡ true) ⊎ Active s.workers)

no_less : {n : ℕ} → n < 0 → ⊥
no_less h = omega (arith, h)

never : false ≡ true → ⊥
never h = cc

some_worker : {v w : Worker} → some v ≡ some w → v ≡ w
some_worker h = cc

get-set :
    (ws : List Worker) (i : ℕ) (v w : Worker)
    → get_elem? ws i ≡ some v
    → get_elem? (set ws i w) i ≡ some w
get-set [] i v w h = cc
get-set (x ∷ ws) zero v w h = refl
get-set (x ∷ ws) (suc i) v w h = get-set ws i v w h

get-set_ne :
    (ws : List Worker) (i k : ℕ) (w : Worker) → i ≢ k → get_elem? (set ws i w) k ≡ get_elem? ws k
get-set_ne [] i k w h = refl
get-set_ne (x ∷ ws) zero zero w h = absurd (h refl)
get-set_ne (x ∷ ws) zero (suc k) w h = refl
get-set_ne (x ∷ ws) (suc i) zero w h = refl
get-set_ne (x ∷ ws) (suc i) (suc k) w h = get-set_ne ws i k w (λ e. h (ap suc e))

-- A worker that becomes active.
Active-set :
    (ws : List Worker) (i : ℕ) (v w : Worker)
    → get_elem? ws i ≡ some v
    → is_active w ≡ true
    → Active (set ws i w)
unfolding Active
Active-set ws i v w h a = (i, w, get-set ws i v w h, a)

-- A worker that was not active returns.
Active-kept :
    (ws : List Worker) (i : ℕ) (w : Worker)
    → get_elem? ws i ≡ some waiting
    → Active ws
    → Active (set ws i w)
unfolding Active
Active-kept ws i w h (k, v, at_k, a) = elim (Bool-cases (i == k)) [
  | inl e ↦
      let same : i ≡ k = ground (arith, e) in
      absurd (idle (some_worker (sym h ∙ ap (get_elem? ws) same ∙ at_k)) a)
  | inr e ↦ (k, v, get-set_ne ws i k w (ground (arith, e)) ∙ at_k, a)
]
  where
    idle : {v : Worker} → waiting ≡ v → is_active v ≡ true → ⊥
    idle e a = clash (ap is_active e ∙ a)
      where
        clash : false ≡ true → ⊥
        clash h = cc

module _ {Any : Type 0} where
  Rung-IsAttended :
      (s : System Any) (q : Queue Any)
      → Rung s.queue q
      → IsAttended s
      → IsAttended (record s { queue = q })
  Rung-IsAttended s q (inl e) v h = inl e
  Rung-IsAttended s q (inr (same, n)) v h = elim (v (omega (arith, h, ap (length {0}) same))) [
    | inl e ↦ inl (n ∙ e)
    | inr a ↦ inr a
  ]

  Fine : Queue Any × Turn → Type 0
  Fine r = (is_active (after_turn r.1) ≡ true) ⊎ (length r.0.pending_heap ≡ 0)

  -- A turn of dequeue gives a job, or finds nothing pending.
  turn-cases : (q : Queue Any) → Fine (dequeue_turn q)
  unfolding dequeue_turn take_from pop Fine after_turn
  turn-cases q = by_heap q.pending_heap refl
    where
      by_heap : (h : List ℕ) → q.pending_heap ≡ h → Fine (dequeue_turn q)
      by_heap [] e =
          subst (λ o. Fine (take_from o q)) (sym (ap (pop (less q.jobs)) e))
            (if-cases Fine q.closed (λ _. inr (ap (length {0}) e)) (λ _. inr (ap (length {0}) e)))
      by_heap (p ∷ a) e =
          subst (λ o. Fine (take_from o q)) (sym (ap (pop (less q.jobs)) e)) (inl refl)

  -- A parked worker returns.
  left-IsAttended :
      (s : System Any) (i : ℕ)
      → get_elem? s.workers i ≡ some waiting
      → IsAttended s
      → IsAttended (record s { workers = set s.workers i returned })
  left-IsAttended s i at_i v h = elim (v h) [
    | inl e ↦ inl e
    | inr (inl due) ↦ inr (inl due)
    | inr (inr a) ↦ inr (inr (Active-kept s.workers i returned at_i a))
  ]

  -- No step leaves a pending job without a signal or an active worker.
  Step-IsAttended :
      (count : ℤ) (handlers : List (Bytes × HandlerFunc Any)) {s t : System Any}
      → Step count handlers s t
      → IsAttended s
      → IsAttended t
  unfolding Fine after_wake wake ping_notify
  Step-IsAttended count handlers {s} (produced p now later) v =
      Rung-IsAttended s (enqueue s.queue p now later).0 (enqueue-Rung s.queue p now later) v
  Step-IsAttended count handlers {s} (promoted now settled) v = λ h.
      elim (promote-cases s.queue now) [
        | inl due ↦ inr (inl due)
        | inr same ↦ elim (v (omega (arith, h, ap (length {0}) same))) [
          | inl e ↦ inl (promote-notify s.queue now ∙ e)
          | inr (inl due) ↦ absurd (never (sym settled ∙ due))
          | inr (inr a) ↦ inr (inr a)
        ]
      ]
  Step-IsAttended count handlers {s} (pinged due) v = λ h. inl refl
  Step-IsAttended count handlers {s} (looked i at_i) v = λ h. elim (turn-cases s.queue) [
    | inl a ↦
        inr (inr (Active-set s.workers i looking (after_turn (dequeue_turn s.queue).1) at_i a))
    | inr e ↦ absurd (no_less (subst (λ n. 0 < n) e h))
  ]
  Step-IsAttended count handlers {s} (woken i notified ctx_done at_i e) v =
      λ h. inr (inr (Active-set s.workers i waiting looking at_i refl))
  Step-IsAttended count handlers {s} (woken i cancelled ctx_done at_i e) v =
      left-IsAttended s i at_i v
  Step-IsAttended count handlers {s} (woken i queue_gone ctx_done at_i e) v =
      left-IsAttended s i at_i v
  Step-IsAttended count handlers {s} (processed i p env at_i) v =
      λ h. inr (inr (Active-set s.workers i (working p) looking at_i refl))
  Step-IsAttended count handlers {s} closed_down v =
      Rung-IsAttended s (close s.queue) (close-Rung s.queue) v

  all-IsAttended :
      (count : ℤ) (handlers : List (Bytes × HandlerFunc Any)) {s t : System Any}
      → Steps count handlers s t
      → IsAttended s
      → IsAttended t
  all-IsAttended count handlers here v = v
  all-IsAttended count handlers (next past step) v =
      Step-IsAttended count handlers step (all-IsAttended count handlers past v)

  -- Whatever the producers, the scheduler and the workers of a dispatcher do, from a new queue and
  -- any workers on: while a job is pending, the signal is set, or the scheduler is about to set it, or
  -- some worker is looking at the queue or at work, after which it looks again.
  pub Steps-attended :
      (count : ℤ) (handlers : List (Bytes × HandlerFunc Any)) (blank : ℕ → Job Any)
      (ws : List Worker) (t : System Any)
      → Steps count handlers (record { queue = new_queue blank; workers = ws; ping_due = false }) t
      → 0 < length t.queue.pending_heap
      → (t.queue.notify ≡ true) ⊎ ((t.ping_due ≡ true) ⊎ Active t.workers)
  unfolding new_queue
  Steps-attended count handlers blank ws t past =
      all-IsAttended count handlers past (λ h. absurd (no_less h))
