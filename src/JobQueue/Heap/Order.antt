-- ===== src/JobQueue/Heap/Order.antt =====
-- The heap order for a comparison that is a strict weak order.
use leetsheet.Prelude.{ℕ, zero, suc, ◌≤◌, ◌<◌, ◌≡◌, ◌≢◌, Bool, true, false, List, arith, length}
use leetsheet.JobQueue.Heap.{at, parent}

-- What heap.Interface asks of Less: a transitive ordering.
pub record IsOrder (less : ℕ → ℕ → Bool) : Type 0 where
  pub asym : (x y : ℕ) → less x y ≡ true → less y x ≡ false
  pub trans : (x y z : ℕ) → less y x ≡ false → less z y ≡ false → less z x ≡ false

module _ (less : ℕ → ℕ → Bool) where
  -- `x` may stand above `y`.
  abbrev pub Above : ℕ → ℕ → Type 0
  Above x y = less y x ≡ false

  -- Among the first `n` entries none comes before its parent.
  abbrev pub IsHeap : ℕ → List ℕ → Type 0
  IsHeap n a = (c : ℕ) → 0 < c → c < n → Above (at a (parent c)) (at a c)

  -- All edges but the one above `i` are in order, and the children of `i` may stand under its parent.
  pub record UpInv (a : List ℕ) (i : ℕ) : Type 0 where
    pub inside : i < length a
    pub edges : (c : ℕ) → 0 < c → c < length a → c ≢ i → Above (at a (parent c)) (at a c)
    pub bridged :
        (c : ℕ) → 0 < c → c < length a → parent c ≡ i → 0 < i → Above (at a (parent i)) (at a c)

  -- Among the first `n` entries all edges but those below `i` are in order, with the same bridge.
  pub record DownInv (n : ℕ) (a : List ℕ) (i : ℕ) : Type 0 where
    pub inside : n ≤ length a
    pub edges : (c : ℕ) → 0 < c → c < n → parent c ≢ i → Above (at a (parent c)) (at a c)
    pub bridged : (c : ℕ) → 0 < c → c < n → parent c ≡ i → 0 < i → Above (at a (parent i)) (at a c)

  module _ (order : IsOrder less) where
    pub irrefl : (x : ℕ) → less x x ≡ false
    irrefl x = ground (arith, order.asym x x)

    least_below :
        (k : ℕ) (a : List ℕ) (n i : ℕ) → IsHeap n a → i < k → i < n → Above (at a 0) (at a i)
    least_below zero a n i h f p = absurd (omega arith)
    least_below (suc k) a n zero h f p = irrefl (at a 0)
    least_below (suc k) a n (suc i) h f p =
        order.trans (at a 0) (at a (parent (suc i))) (at a (suc i))
          (least_below k a n (parent (suc i)) h (omega arith) (omega arith))
          (h (suc i) (omega arith) p)

    -- No entry of a heap comes before the root.
    pub root_first : (a : List ℕ) (n i : ℕ) → IsHeap n a → i < n → Above (at a 0) (at a i)
    root_first a n i h p = least_below (suc i) a n i h (omega arith) p
