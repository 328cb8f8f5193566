-- ===== src/Puzzles/Pairs.antt =====
-- pkg/two_sum.go: the first index whose value has its complement before it, in Go's int, which wraps
-- around at 64 bits.
use leetsheet.Prelude.{
  All, zero, ℕ, suc, ◌+◌, ◌-◌, ◌<◌, ◌≡◌, ◌≢◌, refl, sym, ap, ◌∙◌, List, [], ◌∷◌, Option, none, some,
  arith, inl, inr, Option-cases, get_elem?, ◌⊎◌,
}
use native.Mathlib.Decide.{dec_lt}
use mathlib.Core.Path.{subst}
use leetsheet.Prelude.Int.{ℤ}
use leetsheet.Prelude.Wrap.{add64, sub64, IsInt64, sub64-add64, add64-sub64}
use leetsheet.Prelude.Maps.{lookup, insert, int_eq, insert-cases, lookup-insert_self}

pub two_sum_loop : ℤ → List (ℤ × ℕ) → ℕ → List ℤ → Option (ℕ × ℕ)
two_sum_loop target seen i [] = none
two_sum_loop target seen i (num ∷ rest) = elim (lookup (sub64 target num) seen) [
  | none ↦ two_sum_loop target (insert num i seen) (suc i) rest
  | some idx ↦ some (idx, i)
]

unfoldable pub two_sum : List ℤ → ℤ → Option (ℕ × ℕ)
unfolding two_sum_loop
two_sum nums target = two_sum_loop target [] 0 nums

-- Two indices, the first before the second, whose values add up to the target as Go adds.
pub record IsPair (nums : List ℤ) (target : ℤ) (a b : ℕ) : Type 0 where
  pub first : ℤ
  pub second : ℤ
  pub before : a < b
  pub at_a : get_elem? nums a ≡ some first
  pub at_b : get_elem? nums b ≡ some second
  pub total : add64 first second ≡ target

-- What TwoSum should answer: a pair, or that there is none.
abbrev pub Answers : List ℤ → ℤ → Option (ℕ × ℕ) → Type 0
Answers nums target (some (a, b)) = IsPair nums target a b
Answers nums target none = (a b : ℕ) → ¬ (IsPair nums target a b)

-- The loop before index `i`: `seen` holds the values before it, and no two of them are a pair.
record IsScanned (nums : List ℤ) (target : ℤ) (seen : List (ℤ × ℕ)) (i : ℕ) : Type 0 where
  held : (v : ℤ) (a : ℕ) → lookup v seen ≡ some a → (a < i) × (get_elem? nums a ≡ some v)
  covered : (a : ℕ) (v : ℤ) → a < i → get_elem? nums a ≡ some v → lookup v seen ≢ none
  unpaired : (a b : ℕ) → b < i → ¬ (IsPair nums target a b)

some_eq : {x y : ℤ} → some x ≡ some y → x ≡ y
some_eq h = cc

some_index : {x y : ℕ} → some x ≡ some y → x ≡ y
some_index h = cc

no_value : {x : ℤ} {o : Option ℤ} → o ≡ none → o ≡ some x → ⊥
no_value h k = cc

at-All : (P : ℤ → Type 0) (xs : List ℤ) (a : ℕ) (v : ℤ) → All P xs → get_elem? xs a ≡ some v → P v
at-All P [] a v h e = absurd (no_value refl e)
at-All P (x ∷ xs) zero v h e = subst P (some_eq e) h.0
at-All P (x ∷ xs) (suc a) v h e = at-All P xs a v h.1 e

no_index : {x : ℕ} {o : Option ℕ} → o ≡ none → o ≡ some x → ⊥
no_index h k = cc

lt_or_eq : (b i : ℕ) → b < suc i → (b < i) ⊎ (b ≡ i)
lt_or_eq b i h = ground arith

IsScanned-next :
    (nums : List ℤ) (target num : ℤ) (seen : List (ℤ × ℕ)) (i : ℕ)
    → IsScanned nums target seen i
    → get_elem? nums i ≡ some num
    → lookup (sub64 target num) seen ≡ none
    → All IsInt64 nums
    → IsScanned nums target (insert num i seen) (suc i)
IsScanned-next nums target num seen i v here unseen ints = record {
  held = λ x a h. elim (insert-cases num x i seen) [
    | inl (same, e) ↦
        let at_i : i ≡ a = some_index (sym e ∙ h) in
        (omega (arith, at_i), ap (get_elem? nums) (sym at_i) ∙ here ∙ ap some same)
    | inr (_, e) ↦ let (inside, found) = v.held x a (sym e ∙ h) in (omega (arith, inside), found)
  ];
  covered = λ a x p h k. elim (insert-cases num x i seen) [
    | inl (_, e) ↦ no_index k e
    | inr (_, e) ↦ elim (lt_or_eq a i p) [
      | inl less ↦ v.covered a x less h (sym e ∙ k)
      | inr same ↦
          let at_num : num ≡ x = some_eq (sym here ∙ ap (get_elem? nums) (sym same) ∙ h) in
          no_index k (
            subst (λ z. lookup z (insert num i seen) ≡ some i) at_num
              (lookup-insert_self num i seen))
    ]
  ];
  unpaired = λ a b p q. elim (lt_or_eq b i p) [
    | inl less ↦ v.unpaired a b less q
    | inr same ↦
        let second : q.second ≡ num = some_eq (sym q.at_b ∙ ap (get_elem? nums) same ∙ here) in
        let first : q.first ≡ sub64 target num =
          sym (sub64-add64 q.first num (at-All IsInt64 nums a q.first ints q.at_a))
          ∙ ap (λ z. sub64 z num) (ap (λ z. add64 q.first z) (sym second) ∙ q.total) in
        v.covered a q.first (omega (arith, q.before, same)) q.at_a
          (ap (λ z. lookup z seen) first ∙ unseen)
  ];
}

two_sum_loop-Answers :
    (nums : List ℤ) (target : ℤ) (seen : List (ℤ × ℕ)) (i : ℕ) (rest : List ℤ)
    → ((k : ℕ) → get_elem? rest k ≡ get_elem? nums (i + k))
    → IsScanned nums target seen i
    → All IsInt64 nums
    → IsInt64 target
    → Answers nums target (two_sum_loop target seen i rest)
unfolding two_sum_loop
two_sum_loop-Answers nums target seen i [] tail v ints small = λ a b q. elim (dec_lt b i) [
  | yes p ↦ v.unpaired a b p q
  | no p ↦
      let past : i + (b - i) ≡ b = omega arith in
      no_value (sym (tail (b - i)) ∙ refl) (ap (get_elem? nums) past ∙ q.at_b)
]
two_sum_loop-Answers nums target seen i (num ∷ rest) tail v ints small =
    let here : get_elem? nums i ≡ some num = ap (get_elem? nums) (omega arith) ∙ sym (tail 0) in
    elim (Option-cases (lookup (sub64 target num) seen)) [
      | inl e ↦
          rw (Answers, two_sum_loop, e)
            (two_sum_loop-Answers nums target (insert num i seen) (suc i) rest
              (λ k. tail (suc k) ∙ ap (get_elem? nums) (omega arith))
              (IsScanned-next nums target num seen i v here e ints) ints small)
      | inr (idx, e) ↦
          let (inside, found) = v.held (sub64 target num) idx e in
          rw (Answers, two_sum_loop, e)
            (record {
              first = sub64 target num;
              second = num;
              before = inside;
              at_a = found;
              at_b = here;
              total = add64-sub64 target num small;
            })
    ]

-- Of 64-bit integers, TwoSum returns two indices in order whose values add up to the target, in sums
-- that wrap around at 64 bits, if there are any, and nothing if there are none.
pub two_sum-Answers :
    (nums : List ℤ) (target : ℤ)
    → All IsInt64 nums
    → IsInt64 target
    → Answers nums target (two_sum nums target)
unfolding two_sum lookup
two_sum-Answers nums target ints small =
    two_sum_loop-Answers nums target [] 0 nums (λ k. ap (get_elem? nums) (omega arith))
      (record {
        held = λ v a h. absurd (no_index refl h);
        covered = λ a v p. absurd (omega arith);
        unpaired = λ a b p. absurd (omega arith);
      })
      ints small
