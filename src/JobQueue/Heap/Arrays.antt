-- ===== src/JobQueue/Heap/Arrays.antt =====
-- Lists of pointers as arrays: writes, swaps, and how often a pointer occurs.
use leetsheet.Prelude.{
  ℕ, zero, suc, ◌+◌, ◌<◌, ◌≡◌, refl, List, [], ◌∷◌, ◌++◌, arith, ◌==◌, if◌then◌else◌, length, set,
  length-set,
}
use leetsheet.JobQueue.Heap.{at, swap}

-- How often `p` occurs.
abbrev pub count : ℕ → List ℕ → ℕ
count p [] = 0
count p (x ∷ a) = (if x == p then 1 else 0) + count p a

pub count-append : (p : ℕ) (a b : List ℕ) → count p (a ++ b) ≡ count p a + count p b
count-append p [] b = omega arith
count-append p (x ∷ a) b = omega (arith, count-append p a b)

abbrev pub is : ℕ → ℕ → ℕ
is x p = if x == p then 1 else 0

-- A write trades one entry for another.
pub count-set :
    (p : ℕ) (a : List ℕ) (i v : ℕ)
    → i < length a
    → count p (set a i v) + is (at a i) p ≡ count p a + is v p
count-set p [] i v h = absurd (omega arith)
count-set p (x ∷ a) zero v h = omega arith
count-set p (x ∷ a) (suc i) v h = omega (arith, count-set p a i v)

pub at-set :
    (a : List ℕ) (i c v : ℕ) → i < length a → at (set a i v) c ≡ (if i == c then v else at a c)
at-set [] i c v h = absurd (omega arith)
at-set (x ∷ a) zero zero v h = refl
at-set (x ∷ a) zero (suc c) v h = ground arith
at-set (x ∷ a) (suc i) zero v h = ground arith
at-set (x ∷ a) (suc i) (suc c) v h = ground (arith, at-set a i c v)

pub length-swap : (a : List ℕ) (i j : ℕ) → length (swap a i j) ≡ length a
length-swap a i j =
    omega (arith, length-set {0} (set a i (at a j)) j (at a i), length-set {0} a i (at a j))

module _ (a : List ℕ) (i j : ℕ) (hi : i < length a) (hj : j < length a) where
  pub at-swap :
      (c : ℕ) → at (swap a i j) c ≡ (if j == c then at a i else if i == c then at a j else at a c)
  at-swap c =
      let hj' : j < length (set a i (at a j)) = omega (arith, length-set {0} a i (at a j)) in
      ground (arith, at-set (set a i (at a j)) j c (at a i) hj', at-set a i c (at a j) hi)

  pub count-swap : (p : ℕ) → count p (swap a i j) ≡ count p a
  count-swap p =
      let hj' : j < length (set a i (at a j)) = omega (arith, length-set {0} a i (at a j)) in
      ground (
        arith,
        count-set p (set a i (at a j)) j (at a i) hj',
        count-set p a i (at a j) hi,
        at-set a i j (at a j) hi,
      )
