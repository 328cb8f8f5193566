-- ===== src/Puzzles/Patience/Least.antt =====
-- The result of pkg/min_deletions_sorted.go, against all non-decreasing subsequences.
use leetsheet.Prelude.{ℕ, suc, ◌+◌, ◌-◌, ◌≤◌, ◌≡◌, List, [], ◌∷◌, arith, inl, inr, length}
use mathlib.Core.Path.{subst}
use leetsheet.Prelude.Int.{ℤ}
use leetsheet.Puzzles.Patience.{tail_at, search, put_tail, tails_loop, min_deletions}
use leetsheet.Puzzles.Patience.Chains.{Chain, only, skip, Chain-Cases, no-Chain, IsPiled}
use leetsheet.Puzzles.Patience.Place.{search-IsPlace, put_tail-IsPut}
use leetsheet.Puzzles.Patience.Extend.{IsPiled-next}

-- The entries of a list in front of another, the last one first.
pub onto : List ℤ → List ℤ → List ℤ
onto past [] = past
onto past (x ∷ xs) = onto (x ∷ past) xs

tails_loop-IsPiled :
    (past tails xs : List ℤ) → IsPiled past tails → IsPiled (onto past xs) (tails_loop tails xs)
unfolding tails_loop onto
tails_loop-IsPiled past tails [] v = v
tails_loop-IsPiled past tails (x ∷ xs) v =
    let lo : ℕ = search (length tails) tails x 0 (length tails) in
    let place =
      search-IsPlace (length tails) past tails x 0 (length tails) v (omega arith) (omega arith)
        (omega arith) (λ i p. absurd (omega arith)) (λ i p q. absurd (omega arith)) in
    let after : List ℤ = put_tail tails x lo in
    tails_loop-IsPiled (x ∷ past) after xs
      (IsPiled-next past tails after x lo v place (put_tail-IsPut tails x lo place.inside))

Chain-fits : (past : List ℤ) (n : ℕ) (y : ℤ) → Chain past n y → n ≤ length past
Chain-fits [] n y c = absurd (no-Chain c)
Chain-fits (x ∷ past) n y c = elim (Chain-Cases x past n y c) [
  | inl (e, _) ↦ omega arith
  | inr (inl c') ↦ omega (arith, Chain-fits past n y c')
  | inr (inr (z, m, e, _, c', _)) ↦ omega (arith, e, Chain-fits past m z c')
]

length-onto : (past xs : List ℤ) → length (onto past xs) ≡ length past + length xs
unfolding onto
length-onto past [] = omega arith
length-onto past (x ∷ xs) = omega (arith, length-onto (x ∷ past) xs)

onto-Chain : (past xs : List ℤ) (n : ℕ) (y : ℤ) → Chain past n y → Chain (onto past xs) n y
unfolding onto
onto-Chain past [] n y c = c
onto-Chain past (x ∷ xs) n y c = onto-Chain (x ∷ past) xs n y (skip x y past n c)

-- MinDeletionsToSorted of a list that is not empty leaves a non-decreasing subsequence, and no
-- non-decreasing subsequence has more entries than are left.
pub min_deletions-least :
    (x : ℤ) (xs : List ℤ)
    → ((y : ℤ) × Chain (onto [] (x ∷ xs)) (length (x ∷ xs) - min_deletions (x ∷ xs)) y)
      × ((n : ℕ) (y : ℤ)
          → Chain (onto [] (x ∷ xs)) n y
          → n + min_deletions (x ∷ xs) ≤ length (x ∷ xs))
unfolding min_deletions onto
min_deletions-least x xs =
    let all : List ℤ = onto [] (x ∷ xs) in
    let tails : List ℤ = tails_loop [] (x ∷ xs) in
    let v : IsPiled all tails = tails_loop-IsPiled [] [] (x ∷ xs) nothing in
    let (_, (one, _)) = v.least 1 x (onto-Chain (x ∷ []) xs 1 x (only x [])) in
    let longest : Chain all (suc (length tails - 1)) (tail_at tails (length tails - 1)) =
      v.real (length tails - 1) (omega (arith, one)) in
    let fits = Chain-fits all (suc (length tails - 1)) (tail_at tails (length tails - 1)) longest in
    let left : suc (length tails - 1) ≡ length (x ∷ xs) - (length (x ∷ xs) - length tails) =
      omega (arith, fits, one, length-onto [] (x ∷ xs)) in
    (
      (
        tail_at tails (length tails - 1),
        subst (λ n. Chain all n (tail_at tails (length tails - 1))) left longest,
      ),
      λ n y c.
          let (_, (most, _)) = v.least n y c in
          omega (arith, most, fits, one, length-onto [] (x ∷ xs)),
    )
  where
    nothing : IsPiled [] []
    nothing = record {
      sorted = λ i j h p. absurd (omega arith);
      real = λ k p. absurd (omega arith);
      least = λ n y c. absurd (no-Chain c);
    }
