-- ===== src/JobQueue/Workers/Rung.antt =====
-- What the functions of queue.go do to the pending heap and its signal.
use leetsheet.Prelude.{
  ℕ, suc, ◌<◌, ◌≤◌, ◌≡◌, refl, ◌∙◌, true, not, List, [], ◌∷◌, Option, arith, inl, inr, ◌⊎◌, ltb,
  ◌==◌, length, if◌then◌else◌, if-cases,
}
use leetsheet.Prelude.Int.{pos, leb_ℤ}
use leetsheet.Prelude.Maps.{lookup, insert, bytes_eq}
use leetsheet.Prelude.Text.{str_eq}
use leetsheet.JobQueue.{
  Job, Queue, Error, enqueue, mend, less, update, pending, accept, place, ready, promote,
  promote_loop, close, is_some,
}
use leetsheet.JobQueue.Heap.{push}

module _ {Any : Type 0} where
  -- A queue that signals, or whose heap and signal are as they were.
  abbrev pub Rung : Queue Any → Queue Any → Type 0
  Rung q q' = (q'.notify ≡ true) ⊎ ((q'.pending_heap ≡ q.pending_heap) × (q'.notify ≡ q.notify))

  place-Rung : (q : Queue Any) (p now : ℕ) → Rung q (place q p now)
  unfolding place
  place-Rung q p now =
      if-cases (λ (r : Queue Any). Rung q r) (ready (q.jobs p) now) (λ _. inl refl)
        (λ _. inr (refl, refl))

  mend-Rung : (q : Queue Any) (p : ℕ) → Rung q (mend q p)
  unfolding mend
  mend-Rung q p =
      if-cases (λ (r : Queue Any). Rung q r) (leb_ℤ (q.jobs p).max_attempts (pos 0))
        (λ _. inr (refl, refl)) (λ _. inr (refl, refl))

  Rung-trans : (q r s : Queue Any) → Rung q r → Rung r s → Rung q s
  Rung-trans q r s a (inl e) = inl e
  Rung-trans q r s (inl e) (inr (h, n)) = inl (n ∙ e)
  Rung-trans q r s (inr (h, n)) (inr (h', n')) = inr (h' ∙ h, n' ∙ n)

  pub enqueue-Rung : (q : Queue Any) (p now later : ℕ) → Rung q (enqueue q p now later).0
  unfolding enqueue accept
  enqueue-Rung q p now later =
      if-cases P (str_eq (q.jobs p).id []) (λ _. inr (refl, refl))
        λ _.
          if-cases P (str_eq (q.jobs p).type []) (λ _. inr (refl, refl))
            λ _.
              if-cases P q.closed (λ _. mend-Rung q p)
                λ _.
                  if-cases P (is_some (lookup (q.jobs p).id q.all)) (λ _. mend-Rung q p)
                    λ _.
                      Rung-trans q (mend q p) (accept (mend q p) p now later) (mend-Rung q p)
                        (accepted (mend q p))
    where
      P : Queue Any × Option Error → Type 0
      P r = Rung q r.0

      accepted : (r : Queue Any) → Rung r (accept r p now later)
      accepted r =
          place-Rung
            (record r {
              jobs = update r.jobs p (record (r.jobs p) {
                enqueued_at = now;
                run_at = if (r.jobs p).run_at == 0 then now else (r.jobs p).run_at;
                status = pending;
              });
              all = insert (r.jobs p).id p r.all;
            })
            p later

  length-promote_loop :
      (jobs : ℕ → Job Any) (now : ℕ) (heap s : List ℕ)
      → length (promote_loop jobs now heap s).1 ≤ length s
  unfolding promote_loop
  length-promote_loop jobs now heap [] = omega arith
  length-promote_loop jobs now heap (p ∷ s) =
      if-cases (λ (r : List ℕ × List ℕ). length r.1 ≤ suc (length s))
        (not (ltb now (jobs p).run_at))
        (λ _. omega (arith, length-promote_loop jobs now (push (less jobs) heap p) s))
        (λ _. omega arith)

  promote_loop-cases :
      (jobs : ℕ → Job Any) (now : ℕ) (heap s : List ℕ)
      → (length (promote_loop jobs now heap s).1 < length s)
        ⊎ ((promote_loop jobs now heap s).0 ≡ heap)
  unfolding promote_loop
  promote_loop-cases jobs now heap [] = inr refl
  promote_loop-cases jobs now heap (p ∷ s) =
      if-cases (λ (r : List ℕ × List ℕ). (length r.1 < suc (length s)) ⊎ (r.0 ≡ heap))
        (not (ltb now (jobs p).run_at))
        (λ _. inl (omega (arith, length-promote_loop jobs now (push (less jobs) heap p) s)))
        (λ _. inr refl)

  -- The locked part of promoteReady changes the heap only if a signal is to follow.
  pub promote-cases :
      (q : Queue Any) (now : ℕ)
      → ((promote q now).1 ≡ true) ⊎ ((promote q now).0.pending_heap ≡ q.pending_heap)
  unfolding promote
  promote-cases q now = elim (promote_loop-cases q.jobs now q.pending_heap q.scheduled) [
    | inl shorter ↦ inl (ground (arith, shorter))
    | inr same ↦ inr same
  ]

  pub promote-notify : (q : Queue Any) (now : ℕ) → (promote q now).0.notify ≡ q.notify
  unfolding promote
  promote-notify q now = refl

  pub close-Rung : (q : Queue Any) → Rung q (close q)
  unfolding close
  close-Rung q =
      if-cases (λ (r : Queue Any). Rung q r) (not q.closed) (λ _. inr (refl, refl))
        (λ _. inr (refl, refl))
