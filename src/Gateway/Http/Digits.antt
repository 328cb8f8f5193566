-- ===== src/Gateway/Http/Digits.antt =====
-- The digits of itoa, and reading them back.
use leetsheet.Prelude.{
  ℕ, zero, suc, ◌+◌, ◌-◌, ◌*◌, ◌/◌, ◌%◌, ◌≤◌, ◌≡◌, refl, [], ◌∷◌, arith, ◌==◌, inl, inr, Bool-cases,
}
use leetsheet.Prelude.Int.{pos}
use leetsheet.Prelude.Text.{Bytes}
use leetsheet.Gateway.Http.{digits_loop, itoa}

-- What decimal digits stand for, after a prefix of value `acc`.
pub read_digits : ℕ → Bytes → ℕ
read_digits acc [] = acc
read_digits acc (d ∷ ds) = read_digits (acc * 10 + (d - 48)) ds

digits_loop-read :
    (k n : ℕ) (buf : Bytes) → n ≤ k → read_digits 0 (digits_loop k n buf) ≡ read_digits n buf
unfolding digits_loop read_digits
digits_loop-read zero n buf h = let e : n ≡ 0 = omega arith in rw e refl
digits_loop-read (suc k) n buf h = elim (Bool-cases (n == 0)) [
  | inl e ↦ let z : n ≡ 0 = ground arith in rw (z) refl
  | inr e ↦
      let back : n / 10 * 10 + (48 + n % 10 - 48) ≡ n = omega arith in
      let rest = digits_loop-read k (n / 10) ((48 + n % 10) ∷ buf) (ground arith) in
      rw (e, rest, back) refl
]

-- The text that itoa gives for a number that is not negative reads back as that number.
pub read_digits-itoa : (n : ℕ) → read_digits 0 (itoa (pos n)) ≡ n
unfolding itoa read_digits
read_digits-itoa n = elim (Bool-cases (n == 0)) [
  | inl e ↦ let z : n ≡ 0 = ground arith in rw z refl
  | inr e ↦ rw e (digits_loop-read n n [] (omega arith))
]
