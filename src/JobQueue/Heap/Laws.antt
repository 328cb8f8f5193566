-- ===== src/JobQueue/Heap/Laws.antt =====
-- heap.Push and heap.Pop on a heap.
use leetsheet.Prelude.{
  ℕ, zero, suc, ◌+◌, ◌-◌, ◌<◌, ◌≡◌, refl, sym, ap, ◌∙◌, Bool, List, [], ◌∷◌, some, arith, length,
  take, length-append, get_or-append, length-take,
}
use leetsheet.JobQueue.Heap.{at, swap, push_back, parent, down_loop, push, pop}
use leetsheet.JobQueue.Heap.Arrays.{count, is, count-append, length-swap, at-swap, count-swap}
use leetsheet.JobQueue.Heap.Order.{IsOrder, Above, IsHeap, UpInv, DownInv, root_first}
use leetsheet.JobQueue.Heap.Up.{up_loop-IsHeap}
use leetsheet.JobQueue.Heap.Down.{down_loop-IsHeap, down_loop-beyond}

at-take : (n : ℕ) (a : List ℕ) (c : ℕ) → c < n → at (take n a) c ≡ at a c
at-take zero a c h = absurd (omega arith)
at-take (suc n) [] c h = refl
at-take (suc n) (x ∷ a) zero h = refl
at-take (suc n) (x ∷ a) (suc c) h = at-take n a c (omega arith)

pub count-take :
    (p n : ℕ) (a : List ℕ) → length a ≡ suc n → count p a ≡ is (at a n) p + count p (take n a)
count-take p n [] h = absurd (omega arith)
count-take p zero (x ∷ []) h = omega arith
count-take p zero (x ∷ y ∷ a) h = absurd (omega arith)
count-take p (suc n) (x ∷ a) h = omega (arith, count-take p n a (omega arith))

abbrev pub IsHeapList : (ℕ → ℕ → Bool) → List ℕ → Type 0
IsHeapList less a = IsHeap less (length a) a

module _ (less : ℕ → ℕ → Bool) where
  -- What Pop gives: an entry that none of the heap comes before, and a heap of the others.
  pub record Popped (a : List ℕ) (x : ℕ) (rest : List ℕ) : Type 0 where
    pub first : (i : ℕ) → i < length a → Above less x (at a i)
    pub same : (p : ℕ) → count p a ≡ is x p + count p rest
    pub heap : IsHeapList less rest
    pub shorter : length a ≡ suc (length rest)

module _ (less : ℕ → ℕ → Bool) (order : IsOrder less) where
  push-start : (a : List ℕ) (x : ℕ) → IsHeapList less a → UpInv less (push_back a x) (length a)
  push-start a x h =
      let size = length-append {0} a (x ∷ []) in
      record {
        inside = omega (arith, size);
        edges = λ c c_pos c_in ne.
            ground (
              arith,
              size,
              h c,
              get_or-append a (x ∷ []) c 0,
              get_or-append a (x ∷ []) (parent c) 0,
            );
        bridged = λ c c_pos c_in below i_pos. absurd (omega (arith, size));
      }

  -- Push keeps the heap order and adds exactly the entry.
  pub push_lem :
      (a : List ℕ) (x : ℕ)
      → IsHeapList less a
      → IsHeapList less (push less a x)
        × ((p : ℕ) → count p (push less a x) ≡ is x p + count p a)
        × (length (push less a x) ≡ suc (length a))
  unfolding push
  push_lem a x h =
      let size = length-append {0} a (x ∷ []) in
      let last : length (push_back a x) - 1 ≡ length a = omega (arith, size) in
      let (heap, same, long) =
        up_loop-IsHeap less order (length (push_back a x)) (push_back a x) (length a)
          (omega (arith, size)) (push-start a x h) in
      rw last (
        λ c c_pos c_in. heap c c_pos (omega (arith, long)),
        λ p. omega (arith, same p, count-append p a (x ∷ [])),
        omega (arith, long, size),
      )

  pop-start :
      (a : List ℕ) (n : ℕ) → length a ≡ suc n → IsHeapList less a → DownInv less n (swap a 0 n) 0
  pop-start a n size h =
      let swapped = at-swap a 0 n (omega arith) (omega arith) in
      record {
        inside = omega (arith, length-swap a 0 n);
        edges = λ c c_pos c_in ne. ground (arith, swapped c, swapped (parent c), h c);
        bridged = λ c c_pos c_in below i_pos. absurd (omega arith);
      }

  -- Pop of a heap that is not empty gives its first entry, than which no entry comes before; what is
  -- left has every other entry as often as before, is in heap order, and is one entry shorter.
  pub pop_lem :
      (x : ℕ) (a : List ℕ)
      → IsHeapList less (x ∷ a)
      → (rest : List ℕ) × (pop less (x ∷ a) ≡ some (x, rest)) × Popped less (x ∷ a) x rest
  unfolding pop
  pop_lem x a h = (
    take n b,
    ap (λ y. some (y, take n b)) root,
    record {
      first = λ i p. root_first less order (x ∷ a) (suc n) i h p;
      same = λ p. omega (
        arith,
        sym (same p),
        count-swap (x ∷ a) 0 n (omega arith) (omega arith) p,
        count-take p n b long,
        ap (λ y. is y p) root,
      );
      heap = λ c c_pos c_in. ground (arith, at-take n b c, at-take n b (parent c), heap c, short);
      shorter = omega (arith, short);
    },
  )
    where
      n : ℕ
      n = length a

      b : List ℕ
      b = down_loop less n (swap (x ∷ a) 0 n) 0 n

      facts :
          IsHeap less n b
          × ((p : ℕ) → count p b ≡ count p (swap (x ∷ a) 0 n))
          × (length b ≡ length (swap (x ∷ a) 0 n))
      facts =
          down_loop-IsHeap less order n (swap (x ∷ a) 0 n) 0 n (omega arith)
            (pop-start (x ∷ a) n refl h)

      heap : IsHeap less n b
      heap = facts.0

      same : (p : ℕ) → count p b ≡ count p (swap (x ∷ a) 0 n)
      same = facts.1

      long : length b ≡ suc n
      long = facts.2 ∙ length-swap (x ∷ a) 0 n

      short : length (take n b) ≡ n
      short = omega (arith, length-take {0} n b, long)

      root : at b n ≡ x
      root =
          down_loop-beyond less order n (swap (x ∷ a) 0 n) 0 n n
            (omega (arith, length-swap (x ∷ a) 0 n)) (omega arith)
          ∙ ground (arith, at-swap (x ∷ a) 0 n (omega arith) (omega arith) n)
