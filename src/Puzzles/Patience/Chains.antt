-- ===== src/Puzzles/Patience/Chains.antt =====
-- Non-decreasing subsequences, and the tails of pkg/min_deletions_sorted.go.
use leetsheet.Prelude.{ℕ, suc, ◌-◌, ◌<◌, ◌≤◌, ◌≡◌, refl, List, [], ◌∷◌, inl, inr, length, ◌⊎◌}
use leetsheet.Prelude.Int.{ℤ, ◌≤ℤ◌}
use leetsheet.Puzzles.Patience.{tail_at}

-- There is a non-decreasing subsequence of `n` entries that ends with `y`, in a list whose last entry
-- stands first.
pub data Chain : List ℤ → ℕ → ℤ → Type 0 where
  only : (y : ℤ) (past : List ℤ) → Chain (y ∷ past) 1 y
  skip : (x y : ℤ) (past : List ℤ) (n : ℕ) → Chain past n y → Chain (x ∷ past) n y
  extend : (z y : ℤ) (past : List ℤ) (n : ℕ) → Chain past n z → z ≤ℤ y → Chain (y ∷ past) (suc n) y

abbrev pub Cases : ℤ → List ℤ → ℕ → ℤ → Type 0
Cases x past n y =
    ((n ≡ 1) × (y ≡ x))
    ⊎ (Chain past n y ⊎ ((z : ℤ) × (m : ℕ) × (n ≡ suc m) × (y ≡ x) × Chain past m z × (z ≤ℤ x)))

pub Chain-Cases : (x : ℤ) (past : List ℤ) (n : ℕ) (y : ℤ) → Chain (x ∷ past) n y → Cases x past n y
Chain-Cases _ _ _ _ (only x past) = inl (refl, refl)
Chain-Cases _ _ _ _ (skip x y past n c) = inr (inl c)
Chain-Cases _ _ _ _ (extend z x past m c h) = inr (inr (z, m, refl, refl, c, h))

pub no-Chain : {n : ℕ} {y : ℤ} → Chain [] n y → ⊥
no-Chain c = elim c [ ]

pub record IsPiled (past tails : List ℤ) : Type 0 where
  pub sorted : (i j : ℕ) → i ≤ j → j < length tails → tail_at tails i ≤ℤ tail_at tails j
  pub real : (k : ℕ) → k < length tails → Chain past (suc k) (tail_at tails k)
  pub least :
      (n : ℕ) (y : ℤ)
      → Chain past n y
      → (0 < n) × ((n ≤ length tails) × (tail_at tails (n - 1) ≤ℤ y))
