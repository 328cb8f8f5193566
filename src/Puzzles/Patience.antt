-- ===== src/Puzzles/Patience.antt =====
-- pkg/min_deletions_sorted.go: the longest non-decreasing subsequence, by the least last values of
-- subsequences of each length.
pub mod Chains
pub mod Place
pub mod Extend
pub mod Least
use leetsheet.Prelude.{
  ℕ, zero, suc, ◌+◌, ◌-◌, ◌/◌, ◌<◌, ◌≤◌, ◌≡◌, ◌≢◌, refl, sym, ap, ◌∙◌, Bool, true, false, not, List,
  [], ◌∷◌, ◌++◌, Option, none, some, arith, inl, inr, Bool-cases, ltb, ◌==◌, length, get_or, set,
  if◌then◌else◌, ◌⊎◌,
}
use leetsheet.Prelude.Int.{ℤ, pos, ltb_ℤ}

abbrev pub tail_at : List ℤ → ℕ → ℤ
tail_at tails k = get_or tails k (pos 0)

-- The binary search, with fuel `hi - lo`.
pub search : ℕ → List ℤ → ℤ → ℕ → ℕ → ℕ
search zero tails x lo hi = lo
search (suc k) tails x lo hi =
    let middle = (lo + hi) / 2 in
    let above = search k tails x lo middle in
    let below = search k tails x (middle + 1) hi in
    if ltb lo hi then (if ltb_ℤ x (tail_at tails middle) then above else below) else lo

pub put_tail : List ℤ → ℤ → ℕ → List ℤ
put_tail tails x lo = if lo == length tails then tails ++ (x ∷ []) else set tails lo x

pub tails_loop : List ℤ → List ℤ → List ℤ
unfolding search put_tail
tails_loop tails [] = tails
tails_loop tails (x ∷ xs) =
    tails_loop (put_tail tails x (search (length tails) tails x 0 (length tails))) xs

-- MinDeletionsToSorted
unfoldable pub min_deletions : List ℤ → ℕ
unfolding tails_loop
min_deletions xs = length xs - length (tails_loop [] xs)
