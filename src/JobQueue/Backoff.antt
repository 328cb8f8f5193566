-- ===== src/JobQueue/Backoff.antt =====
-- backoff (dispatcher.go): the delay before a retry, in the wrapping arithmetic of time.Duration.
use leetsheet.Prelude.{
  ℕ, zero, suc, ◌+◌, ◌*◌, ◌%◌, ◌^◌, ◌<◌, ◌≡◌, refl, ◌∙◌, Bool, true, ◌&&◌, arith, ltb, ltb→lt, ◌==◌,
  if◌then◌else◌, min,
}
use leetsheet.Prelude.Int.{signed64, ℤ, pos, pos_part, neg_part, ltb_ℤ}

abbrev pub second : ℕ
second = 1_000_000_000

abbrev pub five_minutes : ℕ
five_minutes = 300 * second

-- `convert` gives the bits of `time.Duration(f)` for a float64 f that is a whole number: the number
-- itself below 2^63, and by Go's specification an unspecified value above.
module _ (convert : ℕ → ℕ) where
  -- math.Pow(2, attempt-1) is exact; below attempt 1 it is less than 1 and converts to 0.
  unfoldable pub backoff : ℤ → ℤ
  backoff (pos (suc k)) =
      let d = signed64 ((second * convert (2 ^ k)) % 2 ^ 64) in
      if ltb_ℤ (pos five_minutes) d then pos five_minutes else d
  backoff _ = pos 0

-- The delay that the comment of backoff tells for attempt k + 1.
pub documented : ℕ → ℤ
documented k = pos (min (second * 2 ^ k) five_minutes)

eqb : ℤ → ℤ → Bool
eqb a b = (pos_part a == pos_part b) && (neg_part a == neg_part b)

eqb→eq : (a b : ℤ) → eqb a b ≡ true → a ≡ b
unfolding eqb
eqb→eq a b h = ground arith

-- A test holds of every number below a bound.
holds_below : (ℕ → Bool) → ℕ → Bool
holds_below test zero = true
holds_below test (suc bound) = holds_below test bound && test bound

below-holds :
    (test : ℕ → Bool) (bound i : ℕ) → i < bound → holds_below test bound ≡ true → test i ≡ true
unfolding holds_below
below-holds test zero i inside h = absurd (omega arith)
below-holds test (suc bound) i inside h = ground (arith, below-holds test bound i)

exact : ℕ → ℕ
exact n = n

exact_table : holds_below (λ k. eqb (backoff exact (pos (suc k))) (documented k)) 34 ≡ true
unfolding holds_below eqb backoff documented exact
exact_table = refl

small_table : holds_below (λ k. ltb (2 ^ k) (2 ^ 63)) 63 ≡ true
unfolding holds_below
small_table = refl

pow_small : (k : ℕ) → k < 63 → ltb (2 ^ k) (2 ^ 63) ≡ true
pow_small k h = below-holds (λ k. ltb (2 ^ k) (2 ^ 63)) 63 k h small_table

-- Where the conversion is exact, backoff is what the exact conversion gives.
backoff-convert :
    (convert : ℕ → ℕ) (k : ℕ)
    → convert (2 ^ k) ≡ 2 ^ k
    → backoff convert (pos (suc k)) ≡ backoff exact (pos (suc k))
unfolding backoff exact
backoff-convert convert k e = rw e

module _ (convert : ℕ → ℕ) (in_range : (n : ℕ) → n < 2 ^ 63 → convert n ≡ n) where
  exact_at : (k : ℕ) → k < 63 → convert (2 ^ k) ≡ 2 ^ k
  exact_at k h = in_range (2 ^ k) (ltb→lt (2 ^ k) (2 ^ 63) (pow_small k h))

  -- Where the conversion of floats is exact below 2^63, for the attempts 1 to 34 the delay doubles from one second on, up to five minutes.
  pub backoff-documented : (k : ℕ) → k < 34 → backoff convert (pos (suc k)) ≡ documented k
  backoff-documented k h =
      backoff-convert convert k (exact_at k (omega arith))
      ∙ eqb→eq _ _
          (below-holds (λ k. eqb (backoff exact (pos (suc k))) (documented k)) 34 k h exact_table)

  overflow_table : holds_below (λ i. eqb (backoff exact (pos (suc (55 + i)))) (pos 0)) 8 ≡ true
  unfolding holds_below eqb backoff exact
  overflow_table = refl

  -- Where the conversion of floats is exact below 2^63, from attempt 56 to attempt 63 the product is a multiple of 2^64: there is no delay at all.
  pub backoff-overflow : (i : ℕ) → i < 8 → backoff convert (pos (suc (55 + i))) ≡ pos 0
  backoff-overflow i h =
      backoff-convert convert (55 + i) (exact_at (55 + i) (omega arith))
      ∙ eqb→eq _ _
          (below-holds (λ i. eqb (backoff exact (pos (suc (55 + i)))) (pos 0)) 8 i h overflow_table)
