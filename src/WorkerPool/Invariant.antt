-- ===== src/WorkerPool/Invariant.antt =====
-- The invariant of a pool: where each job is, and in which order the channels are closed.
use leetsheet.Prelude.{
  ℕ, zero, suc, ◌+◌, ◌≡◌, ◌⊎◌, inl, inr, refl, ap, ◌∙◌, ◌<◌, ◌≤◌, Bool, true, false, List, [], ◌∷◌,
  some, arith, length, length-set, length-replicate, get_elem?, replicate, All, some-eq,
}
use leetsheet.WorkerPool.{
  Job, Result, answer, Worker, idle, holding, returned, Pool, start, Step, submit, done, take_job,
  send_result, send_closed, leave, close_results, collect, finish, Steps, here, next,
}
use leetsheet.WorkerPool.Counts.{sum_of, sum_of-append, sum_of-set, held}

-- A weight of results that does not look at the worker.
abbrev pub Fair : (Result → ℕ) → Type 0
Fair g = (i k : ℕ) (j : Job) → g (answer i j) ≡ g (answer k j)

-- The weight of everything in the pool: jobs count with the weight of their answers.
abbrev pub weight : (Result → ℕ) → Pool → ℕ
weight g s =
    let f : Job → ℕ = λ j. g (answer 0 j) in
    sum_of f s.to_submit
    + sum_of f s.jobs
    + sum_of (held f) s.workers
    + sum_of g s.results
    + sum_of g s.received

Step-weight : (g : Result → ℕ) → Fair g → {s t : Pool} → Step s t → weight g t ≡ weight g s
Step-weight g fair {s} (submit j rest e room) = omega (
  arith,
  sum_of-append (λ j. g (answer 0 j)) s.jobs (j ∷ []),
  ap (sum_of (λ j. g (answer 0 j))) e,
)
Step-weight g fair (done e unshut) = refl
Step-weight g fair {s} (take_job i j rest e f) = omega (
  arith,
  sum_of-set (held (λ j. g (answer 0 j))) s.workers i idle (holding j) e,
  ap (sum_of (λ j. g (answer 0 j))) f,
)
Step-weight g fair {s} (send_result i j e unshut room) = omega (
  arith,
  sum_of-set (held (λ j. g (answer 0 j))) s.workers i (holding j) idle e,
  sum_of-append g s.results (answer (suc i) j ∷ []),
  fair (suc i) 0 j,
)
Step-weight g fair (send_closed i j e c up) = refl
Step-weight g fair {s} (leave i e f c) =
    omega (arith, sum_of-set (held (λ j. g (answer 0 j))) s.workers i idle returned e)
Step-weight g fair (close_results all unshut) = refl
Step-weight g fair {s} (collect r rest c going e) =
    omega (arith, sum_of-append g s.received (r ∷ []), ap (sum_of g) e)
Step-weight g fair (finish c e f going) = refl

pub Steps-weight : (g : Result → ℕ) → Fair g → {s t : Pool} → Steps s t → weight g t ≡ weight g s
Steps-weight g fair here = refl
Steps-weight g fair (next r st) = Step-weight g fair st ∙ Steps-weight g fair r

-- How many workers have returned.
abbrev pub gone : Worker → ℕ
gone returned = 1
gone _ = 0

pub record IsOrdered (size num : ℕ) (s : Pool) : Type 0 where
  pub sized : s.capacity ≡ size
  pub staffed : length s.workers ≡ num
  pub closed_last : s.jobs_closed ≡ true → s.to_submit ≡ []
  pub left_last : (sum_of gone s.workers ≡ 0) ⊎ ((s.jobs_closed ≡ true) × (s.jobs ≡ []))
  pub shut_last : s.results_closed ≡ true → sum_of gone s.workers ≡ length s.workers
  pub over_last :
      s.finished ≡ true → (s.results_closed ≡ true) × (s.results ≡ []) × (s.jobs_closed ≡ true)
  pub alive : s.panicked ≡ false

gone-le : (w : Worker) → gone w ≤ 1
gone-le idle = omega arith
gone-le (holding j) = omega arith
gone-le returned = omega arith

pub sum_gone-le : (ws : List Worker) → sum_of gone ws ≤ length ws
sum_gone-le [] = omega arith
sum_gone-le (w ∷ ws) = omega (arith, gone-le w, sum_gone-le ws)

-- A worker that has not returned shows that not all have.
pub sum_gone-lt :
    (ws : List Worker) (i : ℕ) (w : Worker)
    → get_elem? ws i ≡ some w
    → gone w ≡ 0
    → sum_of gone ws < length ws
sum_gone-lt [] i w e h = absurd (ground arith)
sum_gone-lt (x ∷ ws) zero w e h = omega (arith, ap gone (some-eq e), sum_gone-le ws)
sum_gone-lt (x ∷ ws) (suc i) w e h = omega (arith, gone-le x, sum_gone-lt ws i w e h)

All-gone : (ws : List Worker) → All (λ w. w ≡ returned) ws → sum_of gone ws ≡ length ws
All-gone [] h = refl
All-gone (w ∷ ws) h = omega (arith, ap gone h.0, All-gone ws h.1)

none_gone : (n : ℕ) → sum_of gone (replicate n idle) ≡ 0
none_gone zero = refl
none_gone (suc n) = omega (arith, none_gone n)

pub start-IsOrdered : (size num : ℕ) (js : List Job) → IsOrdered size num (start num size js)
unfolding start
start-IsOrdered size num js = record {
  sized = refl;
  staffed = length-replicate num idle;
  closed_last = λ h. cc;
  left_last = inl (none_gone num);
  shut_last = λ h. cc;
  over_last = λ h. cc;
  alive = refl;
}

pub clash {ℓ} : {A : Type ℓ} {xs ys : List A} {x : A} → xs ≡ x ∷ ys → xs ≡ [] → ⊥
clash h k = cc

both : {b : Bool} → b ≡ true → b ≡ false → ⊥
both h k = cc

module _ {size num : ℕ} where
  -- The workers change at an index at which one has not returned.
  unreturned :
      {s : Pool} (i : ℕ) (w : Worker)
      → IsOrdered size num s
      → get_elem? s.workers i ≡ some w
      → gone w ≡ 0
      → s.results_closed ≡ true
      → ⊥
  unreturned {s} i w v e h c = absurd (omega (arith, sum_gone-lt s.workers i w e h, v.shut_last c))

  pub Step-IsOrdered : {s t : Pool} → Step s t → IsOrdered size num s → IsOrdered size num t
  Step-IsOrdered {s} (submit j rest e room) v = record {
    sized = v.sized;
    staffed = v.staffed;
    closed_last = λ c. absurd (clash e (v.closed_last c));
    left_last = elim v.left_last [
      | inl h ↦ inl h
      | inr (c, h) ↦ absurd (clash e (v.closed_last c))
    ];
    shut_last = v.shut_last;
    over_last = v.over_last;
    alive = v.alive;
  }
  Step-IsOrdered {s} (done e unshut) v = record {
    sized = v.sized;
    staffed = v.staffed;
    closed_last = λ c. e;
    left_last = elim v.left_last [ inl h ↦ inl h | inr (c, h) ↦ inr (refl, h) ];
    shut_last = v.shut_last;
    over_last = λ h. ((v.over_last h).0, (v.over_last h).1, refl);
    alive = v.alive;
  }
  Step-IsOrdered {s} (take_job i j rest e f) v = record {
    sized = v.sized;
    staffed = length-set s.workers i (holding j) ∙ v.staffed;
    closed_last = v.closed_last;
    left_last = elim v.left_last [
      | inl h ↦ inl (omega (arith, sum_of-set gone s.workers i idle (holding j) e))
      | inr (c, h) ↦ absurd (clash f h)
    ];
    shut_last = λ c. absurd (unreturned i idle v e refl c);
    over_last = v.over_last;
    alive = v.alive;
  }
  Step-IsOrdered {s} (send_result i j e unshut room) v = record {
    sized = v.sized;
    staffed = length-set s.workers i idle ∙ v.staffed;
    closed_last = v.closed_last;
    left_last = elim v.left_last [
      | inl h ↦ inl (omega (arith, sum_of-set gone s.workers i (holding j) idle e))
      | inr h ↦ inr h
    ];
    shut_last = λ c. absurd (unreturned i (holding j) v e refl c);
    over_last = λ h. absurd (unreturned i (holding j) v e refl (v.over_last h).0);
    alive = v.alive;
  }
  Step-IsOrdered {s} (send_closed i j e c up) v = absurd (unreturned i (holding j) v e refl c)
  Step-IsOrdered {s} (leave i e f c) v = record {
    sized = v.sized;
    staffed = length-set s.workers i returned ∙ v.staffed;
    closed_last = v.closed_last;
    left_last = inr (c, f);
    shut_last = λ k. absurd (unreturned i idle v e refl k);
    over_last = v.over_last;
    alive = v.alive;
  }
  Step-IsOrdered {s} (close_results all unshut) v = record {
    sized = v.sized;
    staffed = v.staffed;
    closed_last = v.closed_last;
    left_last = v.left_last;
    shut_last = λ k. All-gone s.workers all;
    over_last = λ h. absurd (both (v.over_last h).0 unshut);
    alive = v.alive;
  }
  Step-IsOrdered {s} (collect r rest c going e) v = record {
    sized = v.sized;
    staffed = v.staffed;
    closed_last = v.closed_last;
    left_last = v.left_last;
    shut_last = v.shut_last;
    over_last = λ h. absurd (clash e (v.over_last h).1);
    alive = v.alive;
  }
  Step-IsOrdered {s} (finish c e f going) v = record {
    sized = v.sized;
    staffed = v.staffed;
    closed_last = v.closed_last;
    left_last = v.left_last;
    shut_last = v.shut_last;
    over_last = λ h. (f, e, c);
    alive = v.alive;
  }

  pub Steps-IsOrdered : {s t : Pool} → Steps s t → IsOrdered size num s → IsOrdered size num t
  Steps-IsOrdered here v = v
  Steps-IsOrdered (next r st) v = Step-IsOrdered st (Steps-IsOrdered r v)
