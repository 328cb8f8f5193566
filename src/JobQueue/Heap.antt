-- ===== src/JobQueue/Heap.antt =====
-- The calls of container/heap that queue.go makes, over the index functions of jobHeap
-- (Len, Swap, Push, Pop); an entry is a pointer, and `less` compares what two pointers point to.
pub mod Arrays
pub mod Order
pub mod Up
pub mod Down
pub mod Laws
pub mod Sums
use leetsheet.Prelude.{
  ℕ, zero, suc, ◌+◌, ◌-◌, ◌*◌, ◌/◌, Bool, true, false, not, ◌&&◌, ◌||◌, List, [], ◌∷◌, ◌++◌, Option,
  none, some, ltb, leb, ◌==◌, if◌then◌else◌, length, get_or, set, take,
}

abbrev pub at : List ℕ → ℕ → ℕ
at a i = get_or a i 0

-- jobHeap.Swap
abbrev pub swap : List ℕ → ℕ → ℕ → List ℕ
swap a i j = set (set a i (at a j)) j (at a i)

-- jobHeap.Push
abbrev pub push_back : List ℕ → ℕ → List ℕ
push_back a x = a ++ x ∷ []

abbrev pub parent : ℕ → ℕ
parent j = (j - 1) / 2

module _ (less : ℕ → ℕ → Bool) where
  -- `up`, with fuel `j + 1`: each round lowers `j`. At 0 the parent is 0 itself.
  pub up_loop : ℕ → List ℕ → ℕ → List ℕ
  up_loop zero a j = a
  up_loop (suc k) a j =
      let rise = up_loop k (swap a (parent j) j) (parent j) in
      if parent j == j || not (less (at a j) (at a (parent j))) then a else rise

  -- The child that `down` compares with: the right one if it is there and comes before the left.
  pub child : List ℕ → ℕ → ℕ → ℕ
  child a i n =
      let j1 = 2 * i + 1 in if ltb (j1 + 1) n && less (at a (j1 + 1)) (at a j1) then j1 + 1 else j1

  -- `down` on the first `n` entries, with fuel `n`: each round raises `i`.
  pub down_loop : ℕ → List ℕ → ℕ → ℕ → List ℕ
  down_loop zero a i n = a
  down_loop (suc k) a i n =
      let j = child a i n in
      let sink = down_loop k (swap a i j) j n in
      if leb n (2 * i + 1) || not (less (at a j) (at a i)) then a else sink

  -- heap.Push
  unfoldable pub push : List ℕ → ℕ → List ℕ
  unfolding up_loop
  push a x = let b = push_back a x in up_loop (length b) b (length b - 1)

  -- heap.Pop: the entry and what is left; `none` where Pop would index an empty heap.
  unfoldable pub pop : List ℕ → Option (ℕ × List ℕ)
  unfolding down_loop child
  pop [] = none
  pop (x ∷ a) =
      let n = length a in let b = down_loop n (swap (x ∷ a) 0 n) 0 n in some (at b n, take n b)
