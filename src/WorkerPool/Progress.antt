-- ===== src/WorkerPool/Progress.antt =====
-- The steps that are possible in a pool that is not done.
use leetsheet.Prelude.{
  ◌⊎◌, ℕ, suc, ◌+◌, ◌*◌, ◌≤◌, ◌<◌, ◌≡◌, ◌⊎◌, inl, inr, refl, ap, true, false, List, [], ◌∷◌, some,
  arith, length, get_elem?, All, Bool-cases,
}
use native.Mathlib.Decide.{dec_lt}
use leetsheet.WorkerPool.{
  Job, Result, Worker, idle, holding, returned, Pool, Step, submit, done, take_job, send_result,
  leave, close_results, collect, finish,
}
use leetsheet.WorkerPool.Counts.{sum_of, held}
use leetsheet.WorkerPool.Invariant.{weight, gone, IsOrdered}

abbrev pub one : Result → ℕ
one r = 1

-- Whether a worker holds a job.
abbrev busy : Worker → ℕ
busy = held (λ j. 1)

pub sum_of-one : {A : Type 0} (xs : List A) → sum_of (λ x. 1) xs ≡ length xs
sum_of-one [] = refl
sum_of-one (x ∷ xs) = omega (arith, sum_of-one xs)

-- Some worker is idle, or some holds a job and none is idle, or all have returned.
data Staff (ws : List Worker) : Type 0 where
  free : (i : ℕ) → get_elem? ws i ≡ some idle → Staff ws
  engaged :
      (i : ℕ) (j : Job)
      → get_elem? ws i ≡ some (holding j)
      → sum_of busy ws + sum_of gone ws ≡ length ws
      → Staff ws
  off : All (λ w. w ≡ returned) ws → Staff ws

off-counts :
    (ws : List Worker) → All (λ w. w ≡ returned) ws → sum_of busy ws + sum_of gone ws ≡ length ws
off-counts [] h = refl
off-counts (w ∷ ws) h = omega (arith, ap gone h.0, ap busy h.0, off-counts ws h.1)

staff : (ws : List Worker) → Staff ws
staff [] = off tt
staff (idle ∷ ws) = free 0 refl
staff (holding j ∷ ws) = elim (staff ws) [
  | free i e ↦ free (suc i) e
  | engaged i k e h ↦ engaged 0 j refl (omega arith)
  | off all ↦ engaged 0 j refl (omega (arith, off-counts ws all))
]
staff (returned ∷ ws) = elim (staff ws) [
  | free i e ↦ free (suc i) e
  | engaged i k e h ↦ engaged (suc i) k e (omega arith)
  | off all ↦ off (refl, all)
]

list-cases : {A : Type 0} (xs : List A) → (xs ≡ []) ⊎ ((x : A) × (ys : List A) × (xs ≡ x ∷ ys))
list-cases [] = inl refl
list-cases (x ∷ xs) = inr (x, xs, refl)

module _ {size num : ℕ} (roomy : 0 < size) (manned : 0 < num) where
  -- Once the jobs are closed: collect, finish, or let the workers get on.
  closing :
      (s : Pool)
      → IsOrdered size num s
      → s.finished ≡ false
      → s.jobs_closed ≡ true
      → (t : Pool) × Step s t
  closing s v going c = elim (list-cases s.results) [
    | inr (r, rest, e) ↦ (_, collect r rest c going e)
    | inl e ↦ elim (Bool-cases s.results_closed) [
      | inl shut ↦ (_, finish c e shut going)
      | inr unshut ↦ elim (staff s.workers) [
        | off all ↦ (_, close_results all unshut)
        | engaged i j f h ↦ (_, send_result i j f unshut (omega (arith, v.sized, ap length e)))
        | free i f ↦ elim (list-cases s.jobs) [
          | inl k ↦ (_, leave i f k c)
          | inr (j, rest, k) ↦ (_, take_job i j rest f k)
        ]
      ]
    ]
  ]

  -- The results are closed after the jobs.
  not_yet : (s : Pool) → IsOrdered size num s → s.jobs_closed ≡ false → s.results_closed ≡ false
  not_yet s v c = elim (Bool-cases s.results_closed) [
    | inr unshut ↦ unshut
    | inl shut ↦ elim v.left_last [
      | inl h ↦ absurd (omega (arith, h, v.shut_last shut, v.staffed))
      | inr (k, h) ↦ absurd (cc)
    ]
  ]

  -- Before: submit if there is room, and if there is none then some worker can get on, since the two
  -- channels and the workers together have room for all jobs.
  submitting :
      (s : Pool)
      → IsOrdered size num s
      → weight one s ≤ 2 * size + num
      → s.jobs_closed ≡ false
      → (t : Pool) × Step s t
  submitting s v fits c = elim (list-cases s.to_submit) [
    | inl e ↦ (_, done e c)
    | inr (j, rest, e) ↦ elim (dec_lt (length s.jobs) s.capacity) [
      | yes room ↦ (_, submit j rest e room)
      | no full ↦
          let unshut : s.results_closed ≡ false = not_yet s v c in
          let none_left : sum_of gone s.workers ≡ 0 = elim v.left_last [
            | inl h ↦ h
            | inr (k, h) ↦ absurd (cc)
          ] in
          elim (staff s.workers) [
            | off all ↦ absurd (
                omega
                  (arith, off-counts s.workers all, v.staffed, none_left, all_busy s.workers all))
            | free i f ↦ elim (list-cases s.jobs) [
              | inl k ↦ absurd (omega (arith, full, ap length k, v.sized))
              | inr (k, ks, h) ↦ (_, take_job i k ks f h)
            ]
            | engaged i k f h ↦ (
              _,
              send_result i k f unshut (
                  omega (
                    arith,
                    full,
                    v.sized,
                    v.staffed,
                    none_left,
                    h,
                    fits,
                    sum_of-one s.to_submit,
                    sum_of-one s.jobs,
                    sum_of-one s.results,
                    ap length e,
                  )),
            )
          ]
    ]
  ]
    where
      all_busy : (ws : List Worker) → All (λ w. w ≡ returned) ws → sum_of busy ws ≡ 0
      all_busy [] h = refl
      all_busy (w ∷ ws) h = omega (arith, ap busy h.0, all_busy ws h.1)

  -- A pool that is not finished can go on.
  pub progress :
      (s : Pool)
      → IsOrdered size num s
      → weight one s ≤ 2 * size + num
      → s.finished ≡ false
      → (t : Pool) × Step s t
  progress s v fits going = elim (Bool-cases s.jobs_closed) [
    | inl c ↦ closing s v going c
    | inr c ↦ submitting s v fits c
  ]
