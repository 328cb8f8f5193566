-- ===== src/Puzzles/Segments.antt =====
-- pkg/subarray_sum_k.go: the segments of a sum, by running sums in a map, against counting them
-- all. Go's int wraps around at 64 bits.
use mathlib.Core.Path.{ap₂}
use leetsheet.Prelude.{
  All, true, false, ℕ, ◌+◌, ◌≡◌, refl, sym, ap, ◌∙◌, Bool, List, [], ◌∷◌, Option, none, some, arith,
  inl, inr, Bool-cases, if◌then◌else◌,
}
use leetsheet.Prelude.Int.{ℤ, pos, ◌+ℤ◌, eqb_ℤ, eqb_ℤ_iff, add_comm}
use leetsheet.Prelude.Wrap.{
  wrap, add64, sub64, IsInt64, wrap-IsInt64, add64_assoc, add64_zero, sub64-add64, add64-sub64,
}
use leetsheet.Prelude.Maps.{lookup, insert, int_eq, lookup-insert}

-- What a map of counts reads at a key, 0 if it is missing.
abbrev pub or_zero : Option ℕ → ℕ
or_zero none = 0
or_zero (some n) = n

pub sum_loop : ℤ → List (ℤ × ℕ) → ℤ → ℕ → List ℤ → ℕ
sum_loop k freq sum count [] = count
sum_loop k freq sum count (num ∷ rest) =
    let next = add64 sum num in
    sum_loop k (insert next (or_zero (lookup next freq) + 1) freq) next
      (count + or_zero (lookup (sub64 next k) freq)) rest

unfoldable pub subarray_sum : List ℤ → ℤ → ℕ
unfolding sum_loop
subarray_sum nums k = sum_loop k (insert (pos 0) 1 []) (pos 0) 0 nums

abbrev pub one_if : Bool → ℕ
one_if b = if b then 1 else 0

-- How many beginnings of a list, none of them empty, bring a running sum to `k` as Go adds.
pub beginnings : ℤ → ℤ → List ℤ → ℕ
beginnings k sum [] = 0
beginnings k sum (x ∷ xs) = one_if (eqb_ℤ (add64 sum x) k) + beginnings k (add64 sum x) xs

-- How many segments of a list have the sum `k`, added from the left as Go adds: those from its first place, and those after it.
pub segments : ℤ → List ℤ → ℕ
unfolding beginnings
segments k [] = 0
segments k (x ∷ xs) = beginnings k (pos 0) (x ∷ xs) + segments k xs

-- The segments that begin after the first place.
later : ℤ → List ℤ → ℕ
later k [] = 0
later k (x ∷ xs) = segments k xs

occurrences : ℤ → List ℤ → ℕ
occurrences v [] = 0
occurrences v (p ∷ ps) = one_if (eqb_ℤ p v) + occurrences v ps

-- The segments to come that begin at an earlier running sum.
pending : ℤ → ℤ → List ℤ → List ℤ → ℕ
pending k sum [] xs = 0
pending k sum (p ∷ ps) xs = beginnings (add64 p k) sum xs + pending k sum ps xs

pending-nil : (k sum : ℤ) (ps : List ℤ) → pending k sum ps [] ≡ 0
unfolding pending beginnings
pending-nil k sum [] = refl
pending-nil k sum (p ∷ ps) = omega (arith, pending-nil k sum ps)

eqb_of_iff : (a b c d : ℤ) → (a ≡ b → c ≡ d) → (c ≡ d → a ≡ b) → eqb_ℤ a b ≡ eqb_ℤ c d
eqb_of_iff a b c d there back = elim (Bool-cases (eqb_ℤ a b)) [
  | inl e ↦ e ∙ sym ((eqb_ℤ_iff c d).1 (there ((eqb_ℤ_iff a b).0 e)))
  | inr e ↦ elim (Bool-cases (eqb_ℤ c d)) [
    | inl f ↦ absurd (clash e ((eqb_ℤ_iff a b).1 (back ((eqb_ℤ_iff c d).0 f))))
    | inr f ↦ e ∙ sym f
  ]
]
  where
    clash : {b : Bool} → b ≡ false → b ≡ true → ⊥
    clash h k = cc

eqb_shift :
    (p k next : ℤ) → IsInt64 p → IsInt64 next → eqb_ℤ next (add64 p k) ≡ eqb_ℤ p (sub64 next k)
eqb_shift p k next small_p small_next =
    eqb_of_iff next (add64 p k) p (sub64 next k)
      (λ e. sym (ap (λ z. sub64 z k) e ∙ sub64-add64 p k small_p))
      (λ e. sym (ap (λ z. add64 z k) e ∙ add64-sub64 next k small_next))

-- An int64 can be taken away from both sides.
cancel : (s y z : ℤ) → IsInt64 y → IsInt64 z → add64 s y ≡ add64 s z → y ≡ z
cancel s y z small_y small_z e =
    sym (sub64-add64 y s small_y)
    ∙ ap (λ r. sub64 r s) (ap wrap (add_comm y s) ∙ e ∙ ap wrap (add_comm s z))
    ∙ sub64-add64 z s small_z

eqb_translate :
    (s a x k : ℤ) → IsInt64 k → eqb_ℤ (add64 (add64 s a) x) (add64 s k) ≡ eqb_ℤ (add64 a x) k
eqb_translate s a x k small =
    eqb_of_iff (add64 (add64 s a) x) (add64 s k) (add64 a x) k
      (λ e. cancel s (add64 a x) k (wrap-IsInt64 (a +ℤ x)) small (sym (add64_assoc s a x) ∙ e))
      (λ e. add64_assoc s a x ∙ ap (λ z. add64 s z) e)

-- Beginnings do not depend on where the running sum starts.
beginnings-translate :
    (s k a : ℤ) (xs : List ℤ)
    → IsInt64 k
    → beginnings (add64 s k) (add64 s a) xs ≡ beginnings k a xs
unfolding beginnings
beginnings-translate s k a [] small = refl
beginnings-translate s k a (x ∷ xs) small =
    ap₂ (λ b n. one_if b + n) (eqb_translate s a x k small)
      (ap (λ z. beginnings (add64 s k) z xs) (add64_assoc s a x)
        ∙ beginnings-translate s k (add64 a x) xs small)

segments-later :
    (s k : ℤ) (xs : List ℤ)
    → IsInt64 s
    → IsInt64 k
    → beginnings (add64 s k) s xs + later k xs ≡ segments k xs
unfolding segments later beginnings
segments-later s k [] small_s small = refl
segments-later s k (x ∷ xs) small_s small =
    ap (λ n. n + segments k xs)
      (ap (λ z. beginnings (add64 s k) z (x ∷ xs)) (sym (add64_zero s small_s))
        ∙ beginnings-translate s k (pos 0) (x ∷ xs) small)

pending-step :
    (k sum x : ℤ) (ps xs : List ℤ)
    → All IsInt64 ps
    → pending k sum ps (x ∷ xs)
      ≡ occurrences (sub64 (add64 sum x) k) ps + pending k (add64 sum x) ps xs
unfolding pending beginnings occurrences
pending-step k sum x [] xs h = refl
pending-step k sum x (p ∷ ps) xs h = omega (
  arith,
  ap one_if (eqb_shift p k (add64 sum x) h.0 (wrap-IsInt64 (sum +ℤ x))),
  pending-step k sum x ps xs h.1,
)

-- The map counts the running sums so far.
IsCounted : List (ℤ × ℕ) → List ℤ → Type 0
IsCounted freq ps = (v : ℤ) → or_zero (lookup v freq) ≡ occurrences v ps

IsCounted-insert :
    (freq : List (ℤ × ℕ)) (ps : List ℤ) (next : ℤ)
    → IsCounted freq ps
    → IsCounted (insert next (or_zero (lookup next freq) + 1) freq) (next ∷ ps)
unfolding IsCounted occurrences
IsCounted-insert freq ps next v x =
    let n : ℕ = or_zero (lookup next freq) + 1 in
    let read = lookup-insert next x n freq in
    elim (Bool-cases (int_eq.beq next x)) [
      | inl e ↦
          let same : next ≡ x = (int_eq.beq_iff next x).0 e in
          ap or_zero (read ∙ ap (λ b. if b then some n else lookup x freq) e)
          ∙ omega (arith, v x, ap (λ z. or_zero (lookup z freq)) same, ap one_if e)
      | inr e ↦
          ap or_zero (read ∙ ap (λ b. if b then some n else lookup x freq) e)
          ∙ omega (arith, v x, ap one_if e)
    ]

sum_loop-segments :
    (k : ℤ) (freq : List (ℤ × ℕ)) (ps : List ℤ) (sum : ℤ) (count : ℕ) (xs : List ℤ)
    → IsInt64 k
    → All IsInt64 ps
    → IsCounted freq ps
    → sum_loop k freq sum count xs ≡ count + pending k sum ps xs + later k xs
unfolding sum_loop later pending IsCounted
sum_loop-segments k freq ps sum count [] small h v = omega (arith, pending-nil k sum ps)
sum_loop-segments k freq ps sum count (x ∷ xs) small h v =
    let next : ℤ = add64 sum x in
    sum_loop-segments k (insert next (or_zero (lookup next freq) + 1) freq) (next ∷ ps) next
      (count + or_zero (lookup (sub64 next k) freq)) xs small (wrap-IsInt64 (sum +ℤ x), h)
      (IsCounted-insert freq ps next v)
    ∙ omega (
      arith,
      v (sub64 next k),
      pending-step k sum x ps xs h,
      segments-later next k xs (wrap-IsInt64 (sum +ℤ x)) small,
    )

-- For a 64-bit `k`, SubarraySum counts exactly the non-empty segments whose sum is `k`, in sums that
-- wrap around at 64 bits.
pub subarray_sum-segments :
    (nums : List ℤ) (k : ℤ) → IsInt64 k → subarray_sum nums k ≡ segments k nums
unfolding subarray_sum pending IsCounted occurrences lookup
subarray_sum-segments nums k small =
    sum_loop-segments k (insert (pos 0) 1 []) (pos 0 ∷ []) (pos 0) 0 nums small (zero_small, tt)
      start
    ∙ omega (arith, segments-later (pos 0) k nums zero_small small)
  where
    zero_small : IsInt64 (pos 0)
    zero_small = (omega arith, omega arith)

    start : IsCounted (insert (pos 0) 1 []) (pos 0 ∷ [])
    start = IsCounted-insert [] [] (pos 0) (λ v. refl)
