-- ===== src/Puzzles/Demos.antt =====
-- The Run functions of pkg/ that compare results with expected values, as the lists of the tests that
-- decide between their two marks, and the switch of cmd/main.go. What is printed besides is left out.
use leetsheet.Prelude.{ℕ, Bool, false, List, [], ◌∷◌, Option, none, some, map, ◌==◌}
use leetsheet.Prelude.Int.{ℤ, pos, negsuc, eqb_ℤ}
use leetsheet.Prelude.Maps.{lookup, bytes_eq}
use leetsheet.Prelude.Text.{Bytes, codes, str_eq}
use leetsheet.Puzzles.Segments.{subarray_sum}
use leetsheet.Puzzles.Longest.{longest_substring}
use leetsheet.Puzzles.Patience.{min_deletions}
use leetsheet.Puzzles.Numbers.{binary_gap, reverse_int, min_operations, case_diff, convert}

unfoldable pub run_binary_gap : List Bool
run_binary_gap =
    map (λ (c : ℕ × ℕ). binary_gap (pos c.0) == c.1)
      ((5, 1) ∷ (8, 0) ∷ (6, 0) ∷ (9, 2) ∷ (22, 1) ∷ (1, 0) ∷ (1024, 0) ∷ (529, 4) ∷ (1041, 5) ∷ [])

unfoldable pub run_reverse_int : List Bool
run_reverse_int =
    map (λ (c : ℤ × ℤ). eqb_ℤ (reverse_int c.0) c.1)
      ((pos 123, pos 321)
        ∷ (negsuc 122, negsuc 320)
        ∷ (pos 120, pos 21)
        ∷ (pos 0, pos 0)
        ∷ (pos 1_534_236_469, pos 0)
        ∷ [])

unfoldable pub run_longest_substring : List Bool
run_longest_substring =
    map (λ (c : Bytes × ℕ). longest_substring c.0 == c.1)
      ((codes "abcabcbb", 3) ∷ (codes "bbbbb", 1) ∷ (codes "pwwkew", 3) ∷ (codes "au", 2) ∷ [])

unfoldable pub run_subarray_sum : List Bool
run_subarray_sum =
    map (λ (c : List ℤ × (ℤ × ℕ)). subarray_sum c.0 c.1.0 == c.1.1)
      ((pos 1 ∷ pos 1 ∷ pos 1 ∷ [], (pos 2, 2))
        ∷ (pos 1 ∷ pos 2 ∷ pos 3 ∷ [], (pos 3, 2))
        ∷ (pos 1 ∷ [], (pos 0, 0))
        ∷ (negsuc 0 ∷ negsuc 0 ∷ pos 1 ∷ [], (pos 0, 1))
        ∷ (pos 1 ∷ negsuc 0 ∷ pos 0 ∷ [], (pos 0, 3))
        ∷ [])

unfoldable pub run_min_deletions : List Bool
run_min_deletions =
    map (λ (c : List ℤ × ℕ). min_deletions c.0 == c.1)
      ((pos 5 ∷ pos 1 ∷ pos 3 ∷ pos 2 ∷ pos 6 ∷ [], 2)
        ∷ (pos 1 ∷ pos 2 ∷ pos 3 ∷ pos 4 ∷ pos 5 ∷ [], 0)
        ∷ (pos 5 ∷ pos 4 ∷ pos 3 ∷ pos 2 ∷ pos 1 ∷ [], 4)
        ∷ (pos 2 ∷ pos 2 ∷ pos 2 ∷ pos 2 ∷ [], 0)
        ∷ ([], 0)
        ∷ [])

unfoldable pub run_stepwise : List Bool
run_stepwise =
    map (λ (c : List ℤ × ℤ). eqb_ℤ (min_operations c.0) c.1)
      ((pos 1 ∷ pos 4 ∷ pos 3 ∷ pos 2 ∷ [], pos 4)
        ∷ (pos 5 ∷ pos 7 ∷ pos 9 ∷ pos 4 ∷ pos 11 ∷ [], pos 9)
        ∷ [])

unfoldable pub run_case_diff : List Bool
run_case_diff =
    map (λ (c : Bytes × ℤ). eqb_ℤ (case_diff c.0) c.1)
      ((codes "CodeSignal", negsuc 5) ∷ (codes "a", negsuc 0) ∷ (codes "AbCdEf", pos 0) ∷ [])

converts : Option Bytes → Bytes → Bool
converts none expected = false
converts (some result) expected = str_eq result expected

unfoldable pub run_zigzag : List Bool
unfolding converts
run_zigzag =
    map (λ (c : Bytes × (ℕ × Bytes)). converts (convert c.0 c.1.0) c.1.1)
      ((codes "PAYPALISHIRING", (3, codes "PAHNAPLSIIGYIR"))
        ∷ (codes "PAYPALISHIRING", (4, codes "PINALSIGYAHRPI"))
        ∷ (codes "A", (1, codes "A"))
        ∷ (codes "AB", (1, codes "AB"))
        ∷ [])

-- What main does: one of the Run functions, the help text, or log.Fatalf.
pub data Program : Type 0 where
  add_two_numbers_demo binary_gap_demo case_diff_demo fee_waiver_demo longest_demo linked_list_demo
        min_deletions_demo prediction_diff_demo reverse_int_demo reverse_mid_demo stepwise_demo
        subarray_demo two_sum_demo rate_limiter_demo worker_pool_demo zigzag_demo :
      Program
  print_help unknown_problem : Program

pub programs : List (Bytes × Program)
programs =
    (codes "add-two-numbers", add_two_numbers_demo)
    ∷ (codes "binary-gap", binary_gap_demo)
    ∷ (codes "case-diff", case_diff_demo)
    ∷ (codes "fee-waiver", fee_waiver_demo)
    ∷ (codes "length-of-longest-substring", longest_demo)
    ∷ (codes "linked-list", linked_list_demo)
    ∷ (codes "min-deletions-sorted", min_deletions_demo)
    ∷ (codes "prediction-diff", prediction_diff_demo)
    ∷ (codes "reverse-int", reverse_int_demo)
    ∷ (codes "reverse-mid", reverse_mid_demo)
    ∷ (codes "stepwise-structure", stepwise_demo)
    ∷ (codes "subarray-sum-k", subarray_demo)
    ∷ (codes "two-sum", two_sum_demo)
    ∷ (codes "rate-limiter", rate_limiter_demo)
    ∷ (codes "worker-pool", worker_pool_demo)
    ∷ (codes "zigzag", zigzag_demo)
    ∷ (codes "help", print_help)
    ∷ ([], print_help)
    ∷ []

chosen : Option Program → Program
chosen none = unknown_problem
chosen (some p) = p

-- The switch of main, on the value of the flag.
unfoldable pub main_switch : Bytes → Program
unfolding programs chosen
main_switch problem = chosen (lookup problem programs)
