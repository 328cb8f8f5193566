-- ===== src/JobQueue/Heap/Down.antt =====
-- `down` of container/heap, on the first `n` entries.
use leetsheet.Prelude.{
  ℕ, zero, suc, ◌+◌, ◌*◌, ◌≤◌, ◌<◌, ◌≡◌, refl, ◌∙◌, Bool, true, ◌||◌, not, List, arith, ◌⊎◌, inl,
  inr, Bool-cases, leb, length,
}
use leetsheet.JobQueue.Heap.{at, swap, parent, child, down_loop}
use leetsheet.JobQueue.Heap.Arrays.{count, length-swap, at-swap, count-swap}
use leetsheet.JobQueue.Heap.Order.{IsOrder, Above, IsHeap, DownInv}

module _ (less : ℕ → ℕ → Bool) (order : IsOrder less) where
  module _ (a : List ℕ) (i n : ℕ) (some_child : 2 * i + 1 < n) where
    child_bounds : (i < child less a i n) × (child less a i n < n) × (parent (child less a i n) ≡ i)
    unfolding child
    child_bounds = ground arith

    -- The chosen child may stand above every child.
    child_first :
        (c : ℕ) → 0 < c → c < n → parent c ≡ i → Above less (at a (child less a i n)) (at a c)
    unfolding child
    child_first c c_pos c_in below = ground (
      arith,
      order.asym (at a (2 * i + 1 + 1)) (at a (2 * i + 1)),
      order.asym (at a c) (at a c),
      sides c c_pos below,
    )
      where
        sides : (c : ℕ) → 0 < c → parent c ≡ i → (c ≡ 2 * i + 1) ⊎ (c ≡ 2 * i + 1 + 1)
        sides c c_pos below = omega arith

    DownInv-swap :
        let j = child less a i n in
        less (at a j) (at a i) ≡ true → DownInv less n a i → DownInv less n (swap a i j) j
    DownInv-swap sinks v =
        let j = child less a i n in
        let (after, inside, above) = child_bounds in
        let swapped = at-swap a i j (omega (arith, v.inside)) (omega (arith, v.inside)) in
        record {
          inside = omega (arith, length-swap a i j, v.inside);
          edges = λ c c_pos c_in ne. ground (
            arith,
            swapped c,
            swapped (parent c),
            order.asym (at a j) (at a i),
            v.edges c,
            v.bridged c,
            child_first c,
            v.bridged j,
          );
          bridged =
              λ c c_pos c_in at_j j_pos. ground (arith, swapped c, swapped (parent j), v.edges c);
        }

  DownInv-stop :
      (a : List ℕ) (i n : ℕ)
      → (leb n (2 * i + 1) || not (less (at a (child less a i n)) (at a i))) ≡ true
      → DownInv less n a i
      → IsHeap less n a
  DownInv-stop a i n stops v c c_pos c_in = elim (Bool-cases (leb n (2 * i + 1))) [
    | inl leaf ↦ ground (arith, v.edges c)
    | inr inner ↦ ground (
      arith,
      v.edges c,
      child_first a i n (ground arith) c,
      order.trans (at a i) (at a (child less a i n)) (at a c),
    )
  ]

  pub down_loop-IsHeap :
      (k : ℕ) (a : List ℕ) (i n : ℕ)
      → n ≤ k + i
      → DownInv less n a i
      → IsHeap less n (down_loop less k a i n)
        × ((p : ℕ) → count p (down_loop less k a i n) ≡ count p a)
        × (length (down_loop less k a i n) ≡ length a)
  unfolding down_loop
  down_loop-IsHeap zero a i n f v =
      (λ c c_pos c_in. v.edges c c_pos c_in (omega arith), λ p. refl, refl)
  down_loop-IsHeap (suc k) a i n f v =
      let j = child less a i n in
      elim (Bool-cases (leb n (2 * i + 1) || not (less (at a j) (at a i)))) [
        | inl stops ↦ rw stops (DownInv-stop a i n stops v, λ p. refl, refl)
        | inr sinks ↦
            let inner : 2 * i + 1 < n = ground arith in
            let (after, inside, above) = child_bounds a i n inner in
            let (heap, same, size) =
              down_loop-IsHeap k (swap a i j) j n (omega arith)
                (DownInv-swap a i n inner (ground arith) v) in
            rw sinks (
              heap,
              λ p. same p ∙ count-swap a i j (omega (arith, v.inside)) (omega (arith, v.inside)) p,
              size ∙ length-swap a i j,
            )
      ]

  -- Entries from `n` on stay where they are.
  pub down_loop-beyond :
      (k : ℕ) (a : List ℕ) (i n c : ℕ)
      → n ≤ length a
      → n ≤ c
      → at (down_loop less k a i n) c ≡ at a c
  unfolding down_loop
  down_loop-beyond zero a i n c h p = refl
  down_loop-beyond (suc k) a i n c h p =
      let j = child less a i n in
      elim (Bool-cases (leb n (2 * i + 1) || not (less (at a j) (at a i)))) [
        | inl stops ↦ rw stops
        | inr sinks ↦
            let inner : 2 * i + 1 < n = ground arith in
            let (after, inside, above) = child_bounds a i n inner in
            let kept : at (swap a i j) c ≡ at a c =
              ground (arith, at-swap a i j (omega arith) (omega arith) c) in
            rw sinks
              (down_loop-beyond k (swap a i j) j n c (omega (arith, length-swap a i j)) p ∙ kept)
      ]
