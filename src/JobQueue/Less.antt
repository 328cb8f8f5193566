-- ===== src/JobQueue/Less.antt =====
-- jobHeap.Less as an order, and what of the memory it reads.
use leetsheet.Prelude.{
  ℕ, zero, suc, ◌+◌, ◌<◌, ◌≡◌, ◌↔◌, ◌⊎◌, sym, ◌∙◌, true, false, List, [], ◌∷◌, arith, length, ◌==◌,
}
use leetsheet.Prelude.Int.{pos_part, neg_part}
use leetsheet.JobQueue.{Job, less}
use leetsheet.JobQueue.Heap.{at, parent}
use leetsheet.JobQueue.Heap.Arrays.{count}
use leetsheet.JobQueue.Heap.Order.{IsOrder, IsHeap}

module _ {Any : Type 0} where
  -- Less holds exactly when the first job has the higher priority, or the same and is due earlier.
  abbrev pub Precedes : Job Any → Job Any → Type 0
  Precedes j k =
      (pos_part k.priority + neg_part j.priority < pos_part j.priority + neg_part k.priority)
      ⊎ ((pos_part k.priority + neg_part j.priority ≡ pos_part j.priority + neg_part k.priority)
          × (j.run_at < k.run_at))

  -- Less says true exactly of a job with the higher priority, or with the same one and due earlier.
  pub less_iff :
      (jobs : ℕ → Job Any) (x y : ℕ) → (less jobs x y ≡ true) ↔ Precedes (jobs x) (jobs y)
  unfolding less
  less_iff jobs x y = (λ h. ground arith, λ h. ground arith)

  pub less-IsOrder : (jobs : ℕ → Job Any) → IsOrder (less jobs)
  unfolding less
  less-IsOrder jobs = record { asym = λ x y h. ground arith; trans = λ x y z h k. ground arith }

  -- Two memories that agree on what Less reads of a pointer.
  abbrev pub SameKey : (ℕ → Job Any) → (ℕ → Job Any) → ℕ → Type 0
  SameKey jobs jobs' x =
      ((jobs x).priority ≡ (jobs' x).priority) × ((jobs x).run_at ≡ (jobs' x).run_at)

  pub less-same :
      (jobs jobs' : ℕ → Job Any) (x y : ℕ)
      → SameKey jobs jobs' x
      → SameKey jobs jobs' y
      → less jobs x y ≡ less jobs' x y
  unfolding less
  less-same jobs jobs' x y h k = cc

  pub IsHeap-same :
      (jobs jobs' : ℕ → Job Any) (n : ℕ) (a : List ℕ)
      → ((i : ℕ) → i < n → SameKey jobs jobs' (at a i))
      → IsHeap (less jobs) n a
      → IsHeap (less jobs') n a
  IsHeap-same jobs jobs' n a same h c c_pos c_in =
      sym (
        less-same jobs jobs' (at a c) (at a (parent c)) (same c c_in)
          (same (parent c) (omega arith)))
      ∙ h c c_pos c_in

-- An entry of a list occurs in it.
pub at-count : (a : List ℕ) (i p : ℕ) → i < length a → count p a ≡ 0 → (at a i == p) ≡ false
at-count [] i p h z = absurd (omega arith)
at-count (x ∷ a) zero p h z = ground arith
at-count (x ∷ a) (suc i) p h z = at-count a i p (omega arith) (ground arith)
