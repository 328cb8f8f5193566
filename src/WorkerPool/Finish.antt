-- ===== src/WorkerPool/Finish.antt =====
-- The end of a pool, and the results received by then.
use leetsheet.Prelude.{
  ◌⊎◌, Option, ℕ, zero, suc, ◌+◌, ◌*◌, ◌≤◌, ◌<◌, ◌≡◌, ◌⊎◌, inl, inr, refl, ap, ◌∙◌, true, false,
  List, [], ◌∷◌, arith, length, replicate, Bool-cases,
}
use leetsheet.WorkerPool.{
  Error, Job, Result, answer, Worker, idle, holding, returned, Pool, start, Step, Steps, here, next,
}
use leetsheet.Prelude.Int.{ℤ, pos, negsuc}
use leetsheet.WorkerPool.Counts.{sum_of, held}
use leetsheet.WorkerPool.Invariant.{
  weight, Fair, Steps-weight, gone, sum_gone-le, IsOrdered, start-IsOrdered, Steps-IsOrdered,
}
use leetsheet.WorkerPool.Measure.{remaining, Step-shrinks}
use leetsheet.WorkerPool.Progress.{one, sum_of-one, progress}

-- Workers that have all returned hold nothing.
held-gone : (f : Job → ℕ) (ws : List Worker) → sum_of gone ws ≡ length ws → sum_of (held f) ws ≡ 0
held-gone f [] h = refl
held-gone f (idle ∷ ws) h = absurd (omega (arith, sum_gone-le ws))
held-gone f (holding j ∷ ws) h = absurd (omega (arith, sum_gone-le ws))
held-gone f (returned ∷ ws) h = omega (arith, held-gone f ws (omega arith))

start-weight :
    (g : Result → ℕ) (num size : ℕ) (js : List Job)
    → weight g (start num size js) ≡ sum_of (λ j. g (answer 0 j)) js
unfolding start
start-weight g num size js = omega (arith, unheld num)
  where
    unheld : (n : ℕ) → sum_of (held (λ j. g (answer 0 j))) (replicate n idle) ≡ 0
    unheld zero = refl
    unheld (suc n) = omega (arith, unheld n)

finished-weight :
    (g : Result → ℕ) {size num : ℕ} (s : Pool)
    → 0 < num
    → IsOrdered size num s
    → s.finished ≡ true
    → sum_of g s.received ≡ weight g s
finished-weight g {size} {num} s manned v over =
    let (shut, e, c) = v.over_last over in
    let f : Job → ℕ = λ j. g (answer 0 j) in
    let no_jobs : s.jobs ≡ [] = elim v.left_last [
      | inl h ↦ absurd (omega (arith, v.shut_last shut, v.staffed))
      | inr (k, h) ↦ h
    ] in
    omega (
      arith,
      held-gone f s.workers (v.shut_last shut),
      ap (sum_of f) no_jobs,
      ap (sum_of f) (v.closed_last c),
      ap (sum_of g) e,
    )

-- A count of what a result reports besides its worker.
abbrev pub reported : (ℤ → ℤ → Option Error → ℕ) → Result → ℕ
reported f r = f r.job_id r.output r.err

sign : (x : ℤ) → ((n : ℕ) × (x ≡ pos n)) ⊎ ((n : ℕ) × (x ≡ negsuc n))
sign (pos n) = inl (n, refl)
sign (negsuc n) = inr (n, refl)

reported-Fair : (f : ℤ → ℤ → Option Error → ℕ) → Fair (reported f)
unfolding answer
reported-Fair f i k j = elim (sign j.input) [ inl (n, e) ↦ rw e refl | inr (n, e) ↦ rw e refl ]

-- How many steps a run has.
abbrev pub steps_of : {s t : Pool} → Steps s t → ℕ
steps_of here = 0
steps_of (next r st) = suc (steps_of r)

steps-bounded : {s t : Pool} (r : Steps s t) → steps_of r + remaining t ≤ remaining s
steps-bounded here = omega arith
steps-bounded (next r st) = omega (arith, steps-bounded r, Step-shrinks st)

-- With at least one worker, and no more jobs than the two channels and the workers have room for
-- together, at every moment of every run: no worker has sent on the closed results; the run has at
-- most `remaining (start num size js)` steps; and either the program has finished, with exactly the
-- answer to each job received, by any count of what a result reports besides its worker, or some step
-- is possible.
pub pool_finishes :
    (num size : ℕ) (js : List Job) (s : Pool)
    → 0 < size
    → 0 < num
    → length js ≤ 2 * size + num
    → (r : Steps (start num size js) s)
    → (s.panicked ≡ false)
      × (steps_of r + remaining s ≤ remaining (start num size js))
      × (((s.finished ≡ true)
            × ((f : ℤ → ℤ → Option Error → ℕ)
                → sum_of (reported f) s.received ≡ sum_of (λ j. reported f (answer 0 j)) js))
          ⊎ ((t : Pool) × Step s t))
pool_finishes num size js s roomy manned fits r =
    let v = Steps-IsOrdered r (start-IsOrdered size num js) in
    let light : weight one s ≤ 2 * size + num =
      omega
        (arith, Steps-weight one (λ i k j. refl) r, start-weight one num size js, sum_of-one js) in
    (
      v.alive,
      steps-bounded r,
      elim (Bool-cases s.finished) [
        | inl over ↦ inl (
          over,
          λ f.
              let g = reported f in
              finished-weight g s manned v over
              ∙ Steps-weight g (reported-Fair f) r
              ∙ start-weight g num size js,
        )
        | inr going ↦ inr (progress roomy manned s v light going)
      ],
    )
