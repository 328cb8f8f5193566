-- ===== src/JobQueue/Heap/Up.antt =====
-- `up` of container/heap.
use leetsheet.Prelude.{
  ℕ, zero, suc, ◌<◌, ◌≡◌, refl, ◌∙◌, Bool, true, ◌||◌, not, List, arith, inl, inr, Bool-cases, ◌==◌,
  length,
}
use leetsheet.JobQueue.Heap.{at, swap, parent, up_loop}
use leetsheet.JobQueue.Heap.Arrays.{count, length-swap, at-swap, count-swap}
use leetsheet.JobQueue.Heap.Order.{IsOrder, IsHeap, UpInv}

module _ (less : ℕ → ℕ → Bool) (order : IsOrder less) where
  UpInv-swap :
      (a : List ℕ) (j : ℕ)
      → 0 < j
      → less (at a j) (at a (parent j)) ≡ true
      → UpInv less a j
      → UpInv less (swap a (parent j) j) (parent j)
  UpInv-swap a j p rises v =
      let i = parent j in
      let swapped = at-swap a i j (omega (arith, v.inside)) v.inside in
      record {
        inside = omega (arith, length-swap a i j, v.inside);
        edges = λ c c_pos c_in ne. ground (
          arith,
          swapped c,
          swapped (parent c),
          length-swap a i j,
          order.asym (at a j) (at a i),
          order.trans (at a j) (at a i) (at a c),
          v.edges c,
          v.bridged c,
        );
        bridged = λ c c_pos c_in at_i i_pos. ground (
          arith,
          swapped c,
          swapped (parent i),
          length-swap a i j,
          order.trans (at a (parent i)) (at a i) (at a c),
          v.edges c,
          v.edges i,
          v.inside,
        );
      }

  -- Where the loop stops the whole list is a heap.
  UpInv-stop :
      (a : List ℕ) (j : ℕ)
      → (parent j == j || not (less (at a j) (at a (parent j)))) ≡ true
      → UpInv less a j
      → IsHeap less (length a) a
  UpInv-stop a j stops v c c_pos c_in = ground (arith, v.edges c)

  pub up_loop-IsHeap :
      (k : ℕ) (a : List ℕ) (j : ℕ)
      → j < k
      → UpInv less a j
      → IsHeap less (length a) (up_loop less k a j)
        × ((p : ℕ) → count p (up_loop less k a j) ≡ count p a)
        × (length (up_loop less k a j) ≡ length a)
  unfolding up_loop
  up_loop-IsHeap zero a j f v = absurd (omega arith)
  up_loop-IsHeap (suc k) a j f v =
      elim (Bool-cases (parent j == j || not (less (at a j) (at a (parent j))))) [
        | inl stops ↦ rw stops (UpInv-stop a j stops v, λ p. refl, refl)
        | inr rises ↦
            let j_pos : 0 < j = ground arith in
            let (heap, same, size) =
              up_loop-IsHeap k (swap a (parent j) j) (parent j) (omega arith)
                (UpInv-swap a j j_pos (ground arith) v) in
            rw rises (
              rw (length-swap a (parent j) j) at heap,
              λ p. same p ∙ count-swap a (parent j) j (omega (arith, v.inside)) v.inside p,
              size ∙ length-swap a (parent j) j,
            )
      ]
