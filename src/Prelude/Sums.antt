-- ===== src/Prelude/Sums.antt =====
-- Sums of weights over a list, and what a write changes.
use leetsheet.Prelude.{
  ℕ, zero, suc, ◌+◌, ◌≡◌, ◌≤◌, ap, List, [], ◌∷◌, ◌++◌, some, arith, get_elem?, set, some-eq,
}

abbrev pub sum_of : {A : Type 0} → (A → ℕ) → List A → ℕ
sum_of f [] = 0
sum_of f (x ∷ xs) = f x + sum_of f xs

pub sum_of-append :
    {A : Type 0} (f : A → ℕ) (xs ys : List A) → sum_of f (xs ++ ys) ≡ sum_of f xs + sum_of f ys
sum_of-append f [] ys = omega arith
sum_of-append f (x ∷ xs) ys = omega (arith, sum_of-append f xs ys)

pub sum_of-set :
    {A : Type 0} (f : A → ℕ) (xs : List A) (i : ℕ) (old new : A)
    → get_elem? xs i ≡ some old
    → sum_of f (set xs i new) + f old ≡ sum_of f xs + f new
sum_of-set f [] i old new h = absurd (ground arith)
sum_of-set f (x ∷ xs) zero old new h = rw (some-eq h) (omega arith)
sum_of-set f (x ∷ xs) (suc i) old new h = omega (arith, sum_of-set f xs i old new h)

pub sum_of-at :
    {A : Type 0} (f : A → ℕ) (xs : List A) (i : ℕ) (v : A)
    → get_elem? xs i ≡ some v
    → f v ≤ sum_of f xs
sum_of-at f [] i v h = absurd (ground arith)
sum_of-at f (x ∷ xs) zero v h = omega (arith, ap f (some-eq h))
sum_of-at f (x ∷ xs) (suc i) v h = omega (arith, sum_of-at f xs i v h)
