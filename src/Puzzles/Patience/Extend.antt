-- ===== src/Puzzles/Patience/Extend.antt =====
-- The tails of pkg/min_deletions_sorted.go and subsequences, after one more value.
use leetsheet.Prelude.{
  ℕ, zero, suc, ◌-◌, ◌<◌, ◌≤◌, ◌≡◌, ◌≢◌, ap, ◌∙◌, List, ◌∷◌, arith, inl, inr, Bool-cases, ◌==◌,
  length, ◌⊎◌,
}
use native.Mathlib.Decide.{dec_lt}
use leetsheet.Prelude.Int.{ℤ, ◌≤ℤ◌}
use leetsheet.Puzzles.Patience.{tail_at}
use leetsheet.Puzzles.Patience.Chains.{Chain, only, skip, extend, Chain-Cases, IsPiled}
use leetsheet.Puzzles.Patience.Place.{IsPlace, IsPut, above_le, le_trans, absurd_order}

module _ (past tails after : List ℤ) (x : ℤ) (lo : ℕ) (v : IsPiled past tails)
    (place : IsPlace tails x lo) (put : IsPut tails after x lo) where
  -- A tail of the new list is `x` itself or an old one.
  new-cases :
      (i : ℕ)
      → i < length after
      → ((i ≡ lo) × (tail_at after i ≡ x))
        ⊎ ((i ≢ lo) × ((i < length tails) × (tail_at after i ≡ tail_at tails i)))
  new-cases i p = elim (Bool-cases (i == lo)) [
    | inl e ↦
        let same : i ≡ lo = ground (arith, e) in inl (same, ap (tail_at after) same ∙ put.here)
    | inr e ↦ let n : i ≢ lo = ground (arith, e) in inr (n, put.others i n p)
  ]

  room : lo < length after
  room = ground (arith, put.size, place.inside)

  grown : length tails ≤ length after
  grown = ground (arith, put.size, place.inside)

  sorted_next : (i j : ℕ) → i ≤ j → j < length after → tail_at after i ≤ℤ tail_at after j
  sorted_next i j h p = elim (new-cases i (omega arith)) [
    | inl (ei, ti) ↦ elim (new-cases j p) [
      | inl (ej, tj) ↦ rw (ti, tj) (omega arith)
      | inr (nj, (qj, tj)) ↦
          rw (ti, tj) (above_le x (tail_at tails j) (place.high j (omega arith) qj))
    ]
    | inr (ni, (qi, ti)) ↦ elim (new-cases j p) [
      | inl (ej, tj) ↦ rw (ti, tj) (place.low i (omega arith))
      | inr (nj, (qj, tj)) ↦ rw (ti, tj) (v.sorted i j h qj)
    ]
  ]

  -- The chain that `x` ends.
  Chain-here : (k : ℕ) → k ≡ lo → Chain (x ∷ past) (suc k) x
  Chain-here zero e = only x past
  Chain-here (suc k) e =
      extend (tail_at tails k) x past (suc k) (v.real k (omega (arith, e, place.inside)))
        (place.low k (omega arith))

  real_next : (k : ℕ) → k < length after → Chain (x ∷ past) (suc k) (tail_at after k)
  real_next k p = elim (new-cases k p) [
    | inl (e, t) ↦ rw t (Chain-here k e)
    | inr (n, (q, t)) ↦ rw t (skip x (tail_at tails k) past (suc k) (v.real k q))
  ]

  -- A chain that ends no lower than every tail before a place ends no lower than the new tail there.
  at_most :
      (i : ℕ) (y : ℤ)
      → i < length after
      → (i ≡ lo → x ≤ℤ y)
      → (i ≢ lo → tail_at tails i ≤ℤ y)
      → tail_at after i ≤ℤ y
  at_most i y p f g = elim (new-cases i p) [
    | inl (e, t) ↦ rw t (f e)
    | inr (n, (q, t)) ↦ rw t (g n)
  ]

  x_le : (y : ℤ) (i : ℕ) → i ≡ lo → i < length tails → tail_at tails i ≤ℤ y → x ≤ℤ y
  x_le y i e p h =
      le_trans x (tail_at tails i) y (above_le x (tail_at tails i) (place.high i (omega arith) p)) h

  before : (i : ℕ) (z : ℤ) → i < length tails → tail_at tails i ≤ℤ z → z ≤ℤ x → i < lo
  before i z p h k = elim (dec_lt i lo) [
    | yes q ↦ q
    | no q ↦ absurd (
        absurd_order x (tail_at tails i) (place.high i (omega arith) p)
          (le_trans (tail_at tails i) z x h k))
  ]

  least_next :
      (n : ℕ) (y : ℤ)
      → Chain (x ∷ past) n y
      → (0 < n) × ((n ≤ length after) × (tail_at after (n - 1) ≤ℤ y))
  least_next n y c = elim (Chain-Cases x past n y c) [
    | inl (e, ey) ↦ (
      omega arith,
      (
        omega (arith, room),
        rw ey (
            at_most (n - 1) x (omega (arith, room)) (λ _. omega arith)
              (λ ne. place.low (n - 1) (omega arith))),
      ),
    )
    | inr (inl c') ↦
        let (some_there, (inside, low)) = v.least n y c' in
        (
          some_there,
          (
            omega (arith, grown),
            at_most (n - 1) y (omega (arith, grown)) (λ e. x_le y (n - 1) e (omega arith) low)
                (λ _. low),
          ),
        )
    | inr (inr (z, m, en, ey, c', h)) ↦
        let (some_there, (inside, low)) = v.least m z c' in
        let below : m - 1 < lo = before (m - 1) z (omega (arith, some_there, inside)) low h in
        (
          omega (arith, en),
          (
            omega (arith, en, room, below, some_there),
            rw ey (
                at_most (n - 1) x (omega (arith, en, room, below, some_there)) (λ _. omega arith)
                  (λ ne. place.low (n - 1) (omega (arith, en, below, some_there)))),
          ),
        )
  ]

  pub IsPiled-next : IsPiled (x ∷ past) after
  IsPiled-next = record { sorted = sorted_next; real = real_next; least = least_next }
