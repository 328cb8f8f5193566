-- ===== src/Puzzles/Tests.antt =====
-- The demos' inputs.
use leetsheet.Prelude.{
  arith, none, some, length, ◌-◌, ◌≤◌, refl, Bool, true, ◌&&◌, ℕ, ◌+◌, ◌<◌, ◌≡◌, List, [], ◌∷◌, All,
}
use leetsheet.Prelude.Int.{ℤ, pos, negsuc, ◌+ℤ◌, ◌-ℤ◌}
use leetsheet.Prelude.Maps.{lookup, insert}
use leetsheet.Prelude.Text.{codes, str_eq}
use leetsheet.Prelude.Wrap.{wrap, IsInt64}
use leetsheet.Puzzles.Pairs.{two_sum, Answers, two_sum-Answers}
use leetsheet.Puzzles.Reverse.{reverse_middle, reverse_array}
use leetsheet.Puzzles.Patience.Chains.{Chain}
use leetsheet.Puzzles.Patience.Least.{onto, min_deletions-least}
use leetsheet.Puzzles.Numbers.Digits.{clamped, mirrored, reverse_int-clamped}
use leetsheet.Puzzles.Segments.{segments, subarray_sum-segments, subarray_sum}
use leetsheet.Puzzles.Longest.{IsLongest, longest_substring-IsLongest, longest_substring}
use leetsheet.Puzzles.Patience.{min_deletions}
use leetsheet.Puzzles.Numbers.{
  binary_gap, reverse_int, min_operations, case_diff, convert, monthly_fee,
}
use leetsheet.Puzzles.Demos.{
  run_binary_gap, run_reverse_int, run_longest_substring, run_subarray_sum, run_min_deletions,
  run_stepwise, run_case_diff, run_zigzag, main_switch, unknown_problem,
}
use leetsheet.Puzzles.Sum.{add_numbers, value, add_numbers-value}

abbrev all_true : List Bool → Bool
all_true [] = true
all_true (b ∷ bs) = b && all_true bs

abbrev nines : List ℕ
nines = 9 ∷ 9 ∷ 9 ∷ []

add_numbers-value_example :
    (value (add_numbers nines (1 ∷ [])) ≡ value nines + value (1 ∷ []))
    × All (λ d. d < 10) (add_numbers nines (1 ∷ []))
add_numbers-value_example = add_numbers-value nines (1 ∷ [])

-- The demos' own tests.
binary_gaps_pass : all_true run_binary_gap ≡ true
unfolding run_binary_gap binary_gap
binary_gaps_pass = refl

reversals_pass : all_true run_reverse_int ≡ true
unfolding run_reverse_int reverse_int ◌+ℤ◌ ◌-ℤ◌
reversals_pass = refl

substrings_pass : all_true run_longest_substring ≡ true
unfolding run_longest_substring longest_substring lookup insert
substrings_pass = refl

segments_pass : all_true run_subarray_sum ≡ true
unfolding run_subarray_sum subarray_sum lookup insert ◌-ℤ◌ ◌+ℤ◌ wrap
segments_pass = refl

deletions_pass : all_true run_min_deletions ≡ true
unfolding run_min_deletions min_deletions
deletions_pass = refl

steps_pass : all_true run_stepwise ≡ true
unfolding run_stepwise min_operations ◌+ℤ◌ ◌-ℤ◌
steps_pass = refl

cases_pass : all_true run_case_diff ≡ true
unfolding run_case_diff case_diff ◌-ℤ◌
cases_pass = refl

zigzags_pass : all_true run_zigzag ≡ true
unfolding run_zigzag convert str_eq
zigzags_pass = refl

fees :
    monthly_fee
      ((pos 120 ∷ negsuc 39 ∷ negsuc 34 ∷ negsuc 29 ∷ pos 15 ∷ [])
        ∷ (negsuc 19 ∷ negsuc 19 ∷ [])
        ∷ [])
      0
    ≡ 5
unfolding monthly_fee
fees = refl

unlisted_demo : main_switch (codes "reverse-array") ≡ unknown_problem
unfolding main_switch lookup str_eq
unlisted_demo = refl

two_sum_demo : two_sum (pos 2 ∷ pos 7 ∷ pos 11 ∷ pos 15 ∷ []) (pos 9) ≡ some (0, 1)
unfolding two_sum lookup insert ◌-ℤ◌ wrap
two_sum_demo = refl

turned_words :
    reverse_middle (codes "apple" ∷ codes "banana" ∷ codes "OranGe" ∷ [])
    ≡ some (codes "alppe" ∷ codes "banana" ∷ codes "OGnare" ∷ [])
unfolding reverse_middle
turned_words = refl

empty_word : reverse_middle ([] ∷ []) ≡ none
unfolding reverse_middle
empty_word = refl

turned_array : reverse_array {A = ℕ} (1 ∷ 2 ∷ 3 ∷ 4 ∷ 5 ∷ []) ≡ some (5 ∷ 4 ∷ 3 ∷ 2 ∷ 1 ∷ [])
unfolding reverse_array
turned_array = refl

abbrev numbers : List ℤ
numbers = pos 5 ∷ pos 1 ∷ pos 3 ∷ pos 2 ∷ pos 6 ∷ []

-- The largest and the smallest int.
abbrev max_int : ℤ
max_int = pos 9223372036854775807

abbrev min_int : ℤ
min_int = negsuc 9223372036854775807

sum_wraps : two_sum (max_int ∷ pos 1 ∷ []) min_int ≡ some (0, 1)
unfolding two_sum lookup insert ◌-ℤ◌ wrap
sum_wraps = refl

sums_wrap : subarray_sum (max_int ∷ max_int ∷ pos 2 ∷ []) (pos 0) ≡ 1
unfolding subarray_sum lookup insert ◌-ℤ◌ ◌+ℤ◌ wrap
sums_wrap = refl

min_int-IsInt64 : IsInt64 min_int
min_int-IsInt64 = (omega arith, omega arith)

two_sum-Answers_example :
    Answers (max_int ∷ pos 1 ∷ []) min_int (two_sum (max_int ∷ pos 1 ∷ []) min_int)
two_sum-Answers_example =
    two_sum-Answers (max_int ∷ pos 1 ∷ []) min_int
      ((omega arith, omega arith), ((omega arith, omega arith), tt)) min_int-IsInt64

subarray_sum-segments_example : subarray_sum numbers (pos 6) ≡ segments (pos 6) numbers
subarray_sum-segments_example = subarray_sum-segments numbers (pos 6) (omega arith, omega arith)

longest_substring-IsLongest_example :
    IsLongest (codes "pwwkew") (longest_substring (codes "pwwkew"))
longest_substring-IsLongest_example = longest_substring-IsLongest (codes "pwwkew")

min_deletions-least_example :
    ((y : ℤ) × Chain (onto [] numbers) (length numbers - min_deletions numbers) y)
    × ((n : ℕ) (y : ℤ) → Chain (onto [] numbers) n y → n + min_deletions numbers ≤ length numbers)
min_deletions-least_example = min_deletions-least (pos 5) (pos 1 ∷ pos 3 ∷ pos 2 ∷ pos 6 ∷ [])

reverse_int-clamped_example : reverse_int (negsuc 122) ≡ clamped true (mirrored 123 123 0)
reverse_int-clamped_example = reverse_int-clamped (negsuc 122)
