-- ===== src/JobQueue/Attempts/Steps.antt =====
-- The functions of queue.go and the count of attempts.
use leetsheet.Prelude.{
  ◌⊎◌, ℕ, ◌≡◌, refl, sym, ap, ◌∙◌, true, false, List, [], ◌∷◌, Option, none, arith, if-cases, inl,
  inr, Bool-cases,
}
use mathlib.Core.Path.{subst}
use leetsheet.Prelude.Int.{pos, ◌≤ℤ◌, leb_ℤ}
use leetsheet.Prelude.Maps.{lookup, bytes_eq}
use leetsheet.Prelude.Text.{str_eq}
use leetsheet.JobQueue.{
  is_some, Error, Job, Queue, write, place, accept, mend, enqueue, dequeue_turn,
}
use leetsheet.JobQueue.Dispatch.Touched.{place-all}
use leetsheet.JobQueue.Places.{IsValid, registered-write, registered, update_self, update-other}
use leetsheet.JobQueue.Valid.Put.{
  entered, unregistered, registered-other, registered_self, mend-lookup, not_known, mend-IsValid,
}
use leetsheet.JobQueue.Valid.Take.{Turned, dequeue_turn_lem}
use leetsheet.JobQueue.Dispatch.Outcomes.{place-jobs}
use leetsheet.JobQueue.Attempts.{
  was_open, clash, Counted, Counted-same, AllCounted, registered-eq, AllCounted-jobs,
  AllCounted-split,
}

module _ {Any : Type 0} where
  pub AllCounted-dequeue_turn :
      (q : Queue Any) (c : ℕ → ℕ) → IsValid q → AllCounted q c → AllCounted (dequeue_turn q).0 c
  AllCounted-dequeue_turn q c valid v = turned q.pending_heap (dequeue_turn_lem q valid)
    where
      turned :
          (h : List ℕ)
          → Turned h q (dequeue_turn q).0 (dequeue_turn q).1
          → AllCounted (dequeue_turn q).0 c
      turned [] t = subst (λ (r : Queue Any). AllCounted r c) (sym t.0) v
      turned (p ∷ a) t =
          let took = t.1 in
          let q' = (dequeue_turn q).0 in
          let same_id = ap (λ (j : Job Any). j.id) took.marked in
          AllCounted-split q q' c c p
            (λ x n.
              registered-eq q q' x took.same_all (ap (λ (j : Job Any). j.id) (took.others x n)))
            took.others (λ x n. refl)
            (Counted-same (registered q p) (registered q' p) (q.jobs p) (q'.jobs p) (c p)
              (registered-eq q q' p took.same_all same_id)
              (ap (λ (j : Job Any). j.attempt) took.marked)
              (ap (λ (j : Job Any). j.max_attempts) took.marked)
              (λ h o. was_open (registered q p) (q.jobs p).status took.waited) (v p))
            v

  AllCounted-mend : (q : Queue Any) (p : ℕ) (c : ℕ → ℕ) → AllCounted q c → AllCounted (mend q p) c
  unfolding mend
  AllCounted-mend q p c v =
      if-cases (λ (r : Queue Any). AllCounted r c) (leb_ℤ (q.jobs p).max_attempts (pos 0))
        (λ none_left.
          let j : Job Any = record (q.jobs p) { max_attempts = pos 1 } in
          AllCounted-split q (write q p j) c c p (λ x n. registered-write q p j refl x)
            (λ x n. update-other q.jobs p x j n) (λ x n. refl)
            (rw (registered-write q p j refl p, update_self q.jobs p j)
              (mended none_left (Bool-cases (registered q p))))
            v)
        (λ _. v)
    where
      mended :
          leb_ℤ (q.jobs p).max_attempts (pos 0) ≡ true
          → (registered q p ≡ true) ⊎ (registered q p ≡ false)
          → Counted (registered q p) (record (q.jobs p) { max_attempts = pos 1 }) (c p)
      mended e (inl h) = absurd (ground (arith, e, (v p).positive h))
      mended e (inr h) = record {
        attempts = (v p).attempts;
        fresh = (v p).fresh;
        positive = λ k. absurd (clash (sym h ∙ k));
        within = λ k. absurd (clash (sym h ∙ k));
        more = λ k _. absurd (clash (sym h ∙ k));
      }

  mend-positive : (q : Queue Any) (p : ℕ) → pos 1 ≤ℤ ((mend q p).jobs p).max_attempts
  unfolding mend
  mend-positive q p =
      if-cases (λ (r : Queue Any). pos 1 ≤ℤ (r.jobs p).max_attempts)
        (leb_ℤ (q.jobs p).max_attempts (pos 0))
        (λ e. rw (update_self q.jobs p (record (q.jobs p) { max_attempts = pos 1 })) (omega arith))
        (λ e. ground (arith, e))

  AllCounted-accept :
      (q : Queue Any) (p now later : ℕ) (c : ℕ → ℕ)
      → lookup (q.jobs p).id q.all ≡ none
      → IsValid q
      → pos 1 ≤ℤ (q.jobs p).max_attempts
      → AllCounted q c
      → AllCounted (accept q p now later) c
  unfolding accept
  AllCounted-accept q p now later c fresh valid room v =
      let e = entered q p now in
      AllCounted-jobs e (place e p later) c (place-all e p later) (place-jobs e p later) (
        AllCounted-split q e c c p (λ x n. registered-other q p now fresh valid x n)
          (λ x n. update-other q.jobs p x _ n) (λ x n. refl)
          (rw (registered_self q p now fresh valid, update_self q.jobs p _)
            (record {
              attempts = (v p).attempts;
              fresh = λ h. absurd (clash (sym h));
              positive = λ _. room;
              within = λ _. omega (arith, never, room);
              more = λ _ _. rw never room;
            }))
          v)
    where
      never : c p ≡ 0
      never = (v p).fresh (unregistered q p now fresh valid)

  pub AllCounted-enqueue :
      (q : Queue Any) (p now later : ℕ) (c : ℕ → ℕ)
      → IsValid q
      → AllCounted q c
      → AllCounted (enqueue q p now later).0 c
  unfolding enqueue
  AllCounted-enqueue q p now later c valid v =
      let mended = AllCounted-mend q p c v in
      if-cases P (str_eq (q.jobs p).id []) (λ _. v)
        λ _.
          if-cases P (str_eq (q.jobs p).type []) (λ _. v)
            λ _.
              if-cases P q.closed (λ _. mended)
                λ _.
                  if-cases P (is_some (lookup (q.jobs p).id q.all)) (λ _. mended)
                    λ k.
                      AllCounted-accept (mend q p) p now later c
                        (mend-lookup q p ∙ not_known (lookup (q.jobs p).id q.all) k)
                        (mend-IsValid q p valid) (mend-positive q p) mended
    where
      P : Queue Any × Option Error → Type 0
      P r = AllCounted r.0 c
