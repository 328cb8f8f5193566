-- ===== src/Puzzles/Numbers/Digits.antt =====
-- What the digit loop of Reverse computes.
use leetsheet.Prelude.{
  ℕ, zero, suc, ◌+◌, ◌*◌, ◌/◌, ◌%◌, ◌<◌, ◌≤◌, ◌≡◌, refl, sym, ap, ◌∙◌, Bool, true, false, not, inl,
  inr, Bool-cases, arith, leb, ◌==◌, if◌then◌else◌,
}
use mathlib.Core.Path.{subst}
use leetsheet.Prelude.Int.{
  ℤ, pos, negsuc, pos_part, neg_part, ◌+ℤ◌, ◌-ℤ◌, eqb_ℤ, eq_of_parts, +ℤ_parts, -ℤ_parts,
}
use leetsheet.Puzzles.Numbers.{
  quotient, remainder, times_ten, overflows, reverse_digits, reverse_int,
}

-- A number with a sign.
abbrev pub signed : Bool → ℕ → ℤ
signed false n = pos n
signed true zero = pos 0
signed true (suc n) = negsuc n

-- The digits of `n`, the last one first, appended to `acc`; the fuel is `n`.
pub mirrored : ℕ → ℕ → ℕ → ℕ
mirrored zero n acc = acc
mirrored (suc k) n acc =
    let rest = mirrored k (n / 10) (10 * acc + n % 10) in if n == 0 then acc else rest

-- The largest size of a 32-bit number of a sign.
abbrev pub largest : Bool → ℕ
largest false = 2_147_483_647
largest true = 2_147_483_648

signed_zero : (b : Bool) → signed b 0 ≡ pos 0
signed_zero false = refl
signed_zero true = refl

negated : (n : ℕ) → pos 0 -ℤ pos n ≡ signed true n
unfolding ◌-ℤ◌
negated zero = refl
negated (suc n) = ground arith

quotient_signed : (b : Bool) (n : ℕ) → quotient (signed b n) ≡ signed b (n / 10)
unfolding quotient
quotient_signed false n = refl
quotient_signed true zero = refl
quotient_signed true (suc n) = negated (suc n / 10)

remainder_signed : (b : Bool) (n : ℕ) → remainder (signed b n) ≡ signed b (n % 10)
unfolding remainder
remainder_signed false n = refl
remainder_signed true zero = refl
remainder_signed true (suc n) = negated (suc n % 10)

signed_parts : (n : ℕ) → (pos_part (signed true n) ≡ 0) × (neg_part (signed true n) ≡ n)
signed_parts zero = (refl, refl)
signed_parts (suc n) = (refl, refl)

append_signed : (b : Bool) (r d : ℕ) → times_ten (signed b r) +ℤ signed b d ≡ signed b (10 * r + d)
append_signed false r d =
    eq_of_parts (times_ten (pos r) +ℤ pos d) (pos (10 * r + d))
      (omega (arith, +ℤ_parts (times_ten (pos r)) (pos d), -ℤ_parts (pos (10 * r)) (pos (10 * 0))))
append_signed true r d =
    let (rp, rn) = signed_parts r in
    let (dp, dn) = signed_parts d in
    let (ep, en) = signed_parts (10 * r + d) in
    let x : ℤ = signed true r in
    eq_of_parts (times_ten x +ℤ signed true d) (signed true (10 * r + d)) (
      omega (
        arith,
        rp,
        rn,
        dp,
        dn,
        ep,
        en,
        +ℤ_parts (times_ten x) (signed true d),
        -ℤ_parts (pos (10 * pos_part x)) (pos (10 * neg_part x)),
      ))

overflows_signed :
    (b : Bool) (r d : ℕ)
    → d < 10
    → overflows (signed b r) (signed b d) ≡ not (leb (10 * r + d) (largest b))
unfolding overflows
overflows_signed false r d h = ground arith
overflows_signed true zero zero h = ground arith
overflows_signed true zero (suc d) h = ground arith
overflows_signed true (suc r) zero h = ground arith
overflows_signed true (suc r) (suc d) h = ground arith

mirrored_ge : (k n acc : ℕ) → acc ≤ mirrored k n acc
unfolding mirrored
mirrored_ge zero n acc = omega arith
mirrored_ge (suc k) n acc = ground (arith, mirrored_ge k (n / 10) (10 * acc + n % 10))

mirrored_done : (k acc : ℕ) → mirrored k 0 acc ≡ acc
unfolding mirrored
mirrored_done zero acc = refl
mirrored_done (suc k) acc = refl

is_zero : (b : Bool) (n : ℕ) → eqb_ℤ (signed b n) (pos 0) ≡ (n == 0)
is_zero false n = ground arith
is_zero true zero = refl
is_zero true (suc n) = ground arith

-- A result that is out of the 32 bits of its sign becomes 0.
abbrev pub clamped : Bool → ℕ → ℤ
clamped b n = if leb n (largest b) then signed b n else pos 0

reverse_digits-clamped :
    (b : Bool) (k n r : ℕ)
    → n ≤ k
    → r ≤ largest b
    → reverse_digits k (signed b n) (signed b r) ≡ clamped b (mirrored k n r)
unfolding reverse_digits mirrored
reverse_digits-clamped b zero n r h fits = ground (arith, fits)
reverse_digits-clamped b (suc k) n r h fits =
    let d : ℕ = n % 10 in
    let next : ℕ = 10 * r + d in
    rw
      (
        reverse_digits,
        is_zero b n,
        remainder_signed b n,
        quotient_signed b n,
        append_signed b r (n % 10),
        overflows_signed b r (n % 10) (omega arith),
      )
      (elim (Bool-cases (n == 0)) [
        | inl e ↦ rw e (ground (arith, fits))
        | inr e ↦ elim (Bool-cases (leb next (largest b))) [
          | inl room ↦
              rw (e, room)
                (reverse_digits-clamped b k (n / 10) next (ground (arith, e, h))
                  (ground (arith, room)))
          | inr over ↦ rw (e, over) (ground (arith, over, mirrored_ge k (n / 10) next))
        ]
      ])

abbrev pub is_negative : ℤ → Bool
is_negative (pos n) = false
is_negative (negsuc n) = true

abbrev pub size : ℤ → ℕ
size x = pos_part x + neg_part x

from_zero : (b : Bool) (n : ℕ) → reverse_digits n (signed b n) (pos 0) ≡ clamped b (mirrored n n 0)
from_zero b n =
    ap (reverse_digits n (signed b n)) (sym (signed_zero b))
    ∙ reverse_digits-clamped b n n 0 (omega arith) (small b)
  where
    small : (b : Bool) → 0 ≤ largest b
    small false = omega arith
    small true = omega arith

-- Reverse gives the number of the digits in reverse order, with the sign of its argument, if that
-- number has 32 bits, and 0 otherwise: its tests before each digit miss no overflow and see none that
-- is not there.
pub reverse_int-clamped :
    (x : ℤ) → reverse_int x ≡ clamped (is_negative x) (mirrored (size x) (size x) 0)
unfolding reverse_int
reverse_int-clamped (pos n) =
    subst (λ k. reverse_digits k (pos n) (pos 0) ≡ clamped false (mirrored k k 0)) (omega arith)
      (from_zero false n)
reverse_int-clamped (negsuc n) =
    subst (λ k. reverse_digits k (negsuc n) (pos 0) ≡ clamped true (mirrored k k 0)) (omega arith)
      (from_zero true (suc n))
