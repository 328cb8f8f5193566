-- ===== src/Puzzles/Sum.antt =====
-- pkg/add_two_numbers.go: numbers as lists of digits, the lowest first. Digits are not negative.
use leetsheet.Prelude.{
  ℕ, zero, suc, ◌+◌, ◌*◌, ◌/◌, ◌%◌, ◌≤◌, ◌<◌, ◌≡◌, List, [], ◌∷◌, arith, ◌==◌, if◌then◌else◌, All,
  inl, inr, Bool-cases,
}

-- The loop of AddNumbers once both lists are at their ends, with fuel: the carry is written out.
carry_loop : ℕ → ℕ → List ℕ
carry_loop zero carry = []
carry_loop (suc k) carry =
    let rest = carry_loop k (carry / 10) in if carry == 0 then [] else (carry % 10) ∷ rest

-- The loop, with the carry so far. The carry is fuel enough for the end.
add_loop : List ℕ → List ℕ → ℕ → List ℕ
unfolding carry_loop
add_loop [] [] carry = carry_loop carry carry
add_loop (x ∷ l1) [] carry = ((carry + x) % 10) ∷ add_loop l1 [] ((carry + x) / 10)
add_loop [] (y ∷ l2) carry = ((carry + y) % 10) ∷ add_loop [] l2 ((carry + y) / 10)
add_loop (x ∷ l1) (y ∷ l2) carry = ((carry + x + y) % 10) ∷ add_loop l1 l2 ((carry + x + y) / 10)

pub add_numbers : List ℕ → List ℕ → List ℕ
unfolding add_loop
add_numbers l1 l2 = add_loop l1 l2 0

-- The number that a list of digits stands for.
pub value : List ℕ → ℕ
value [] = 0
value (d ∷ l) = d + 10 * value l

carry_loop-value : (k carry : ℕ) → carry ≤ k → value (carry_loop k carry) ≡ carry
unfolding carry_loop value
carry_loop-value zero carry h = omega arith
carry_loop-value (suc k) carry h = elim (Bool-cases (carry == 0)) [
  | inl e ↦ rw e (ground arith)
  | inr e ↦ rw (e, carry_loop-value k (carry / 10) (ground arith)) (omega arith)
]

add_loop-value :
    (l1 l2 : List ℕ) (carry : ℕ) → value (add_loop l1 l2 carry) ≡ carry + value l1 + value l2
unfolding add_loop value
add_loop-value [] [] carry = omega (arith, carry_loop-value carry carry (omega arith))
add_loop-value (x ∷ l1) [] carry = omega (arith, add_loop-value l1 [] ((carry + x) / 10))
add_loop-value [] (y ∷ l2) carry = omega (arith, add_loop-value [] l2 ((carry + y) / 10))
add_loop-value (x ∷ l1) (y ∷ l2) carry = omega (arith, add_loop-value l1 l2 ((carry + x + y) / 10))

carry_loop-digits : (k carry : ℕ) → All (λ d. d < 10) (carry_loop k carry)
unfolding carry_loop
carry_loop-digits zero carry = tt
carry_loop-digits (suc k) carry = elim (Bool-cases (carry == 0)) [
  | inl e ↦ rw e tt
  | inr e ↦ rw e (omega arith, carry_loop-digits k (carry / 10))
]

add_loop-digits : (l1 l2 : List ℕ) (carry : ℕ) → All (λ d. d < 10) (add_loop l1 l2 carry)
unfolding add_loop
add_loop-digits [] [] carry = carry_loop-digits carry carry
add_loop-digits (x ∷ l1) [] carry = (omega arith, add_loop-digits l1 [] ((carry + x) / 10))
add_loop-digits [] (y ∷ l2) carry = (omega arith, add_loop-digits [] l2 ((carry + y) / 10))
add_loop-digits (x ∷ l1) (y ∷ l2) carry =
    (omega arith, add_loop-digits l1 l2 ((carry + x + y) / 10))

-- The result of AddNumbers stands for the sum of the two numbers, and each of its nodes is a digit.
pub add_numbers-value :
    (l1 l2 : List ℕ)
    → (value (add_numbers l1 l2) ≡ value l1 + value l2) × All (λ d. d < 10) (add_numbers l1 l2)
unfolding add_numbers
add_numbers-value l1 l2 = (omega (arith, add_loop-value l1 l2 0), add_loop-digits l1 l2 0)
