-- ===== src/Puzzles/Patience/Place.antt =====
-- Where pkg/min_deletions_sorted.go puts a value among the tails, and the tails after that.
use leetsheet.Prelude.{
  ℕ, zero, suc, ◌+◌, ◌/◌, ◌<◌, ◌≤◌, ◌≡◌, ◌≢◌, refl, sym, ap, ◌∙◌, true, false, List, [], ◌∷◌, ◌++◌,
  arith, inl, inr, Bool-cases, ltb, ◌==◌, length, length-append, length-set, get_or-set_self,
  get_or-set_ne, get_or-append, if◌then◌else◌, if-cases,
}
use leetsheet.Prelude.Int.{ℤ, pos, ltb_ℤ, ◌≤ℤ◌}
use leetsheet.Puzzles.Patience.{tail_at, search, put_tail}
use leetsheet.Puzzles.Patience.Chains.{IsPiled}

-- The place of `x`: before it no tail is larger, and from it on all are.
pub record IsPlace (tails : List ℤ) (x : ℤ) (lo : ℕ) : Type 0 where
  pub inside : lo ≤ length tails
  pub low : (i : ℕ) → i < lo → tail_at tails i ≤ℤ x
  pub high : (i : ℕ) → lo ≤ i → i < length tails → ltb_ℤ x (tail_at tails i) ≡ true

not_above : (x y : ℤ) → ltb_ℤ x y ≡ false → y ≤ℤ x
not_above x y h = ground (arith, h)

pub above_le : (x y : ℤ) → ltb_ℤ x y ≡ true → x ≤ℤ y
above_le x y h = ground (arith, h)

above_trans : (x y z : ℤ) → ltb_ℤ x y ≡ true → y ≤ℤ z → ltb_ℤ x z ≡ true
above_trans x y z h k = ground (arith, h, k)

pub le_trans : (x y z : ℤ) → x ≤ℤ y → y ≤ℤ z → x ≤ℤ z
le_trans x y z h k = omega (arith, h, k)

pub absurd_order : (x y : ℤ) → ltb_ℤ x y ≡ true → y ≤ℤ x → ⊥
absurd_order x y h k = ground (arith, h, k)

pub search-IsPlace :
    (k : ℕ) (past tails : List ℤ) (x : ℤ) (lo hi : ℕ)
    → IsPiled past tails
    → hi ≤ lo + k
    → lo ≤ hi
    → hi ≤ length tails
    → ((i : ℕ) → i < lo → tail_at tails i ≤ℤ x)
    → ((i : ℕ) → hi ≤ i → i < length tails → ltb_ℤ x (tail_at tails i) ≡ true)
    → IsPlace tails x (search k tails x lo hi)
unfolding search
search-IsPlace zero past tails x lo hi v fuel h inside low high = record {
  inside = omega arith;
  low = low;
  high = λ i p. high i (omega arith);
}
search-IsPlace (suc k) past tails x lo hi v fuel h inside low high =
    if-cases (IsPlace tails x) (ltb lo hi)
      (λ more.
        let middle : ℕ = (lo + hi) / 2 in
        if-cases (IsPlace tails x) (ltb_ℤ x (tail_at tails middle))
          (λ above.
            search-IsPlace k past tails x lo middle v (ground (arith, more)) (ground (arith, more))
              (ground (arith, more)) low
              (λ i p q.
                above_trans x (tail_at tails middle) (tail_at tails i) above
                  (v.sorted middle i p q)))
          (λ below.
            search-IsPlace k past tails x (middle + 1) hi v (ground (arith, more))
              (ground (arith, more)) inside
              (λ i p.
                le_trans (tail_at tails i) (tail_at tails middle) x
                  (v.sorted i middle (omega arith) (ground (arith, more)))
                  (not_above x (tail_at tails middle) below))
              high))
      (λ done. record {
        inside = omega arith;
        low = low;
        high = λ i p. high i (ground (arith, done));
      })

get_or-end : (tails : List ℤ) (x : ℤ) → tail_at (tails ++ (x ∷ [])) (length tails) ≡ x
get_or-end [] x = refl
get_or-end (t ∷ tails) x = get_or-end tails x

length-put_tail :
    (tails : List ℤ) (x : ℤ) (lo : ℕ)
    → lo ≤ length tails
    → length (put_tail tails x lo) ≡ (if lo == length tails then suc lo else length tails)
unfolding put_tail
length-put_tail tails x lo h = elim (Bool-cases (lo == length tails)) [
  | inl e ↦ rw e (ground (arith, e, length-append tails (x ∷ [])))
  | inr e ↦ rw e (length-set tails lo x)
]

-- After the write the value at `lo` is `x`, and the others are as before.
pub record IsPut (tails after : List ℤ) (x : ℤ) (lo : ℕ) : Type 0 where
  pub size : length after ≡ (if lo == length tails then suc lo else length tails)
  pub here : tail_at after lo ≡ x
  pub others :
      (i : ℕ) → i ≢ lo → i < length after → (i < length tails) × (tail_at after i ≡ tail_at tails i)

pub put_tail-IsPut :
    (tails : List ℤ) (x : ℤ) (lo : ℕ) → lo ≤ length tails → IsPut tails (put_tail tails x lo) x lo
unfolding put_tail
put_tail-IsPut tails x lo h =
    if-cases (λ a. IsPut tails a x lo) (lo == length tails)
      (λ e.
        let end : lo ≡ length tails = ground (arith, e) in
        record {
          size = ground (arith, e, length-append tails (x ∷ []));
          here = ap (tail_at (tails ++ (x ∷ []))) end ∙ get_or-end tails x;
          others = λ i n p.
              let q : i < length tails = omega (arith, end, n, p, length-append tails (x ∷ [])) in
              (q, get_or-append tails (x ∷ []) i (pos 0) q);
        })
      (λ e.
        let q : lo < length tails = ground (arith, e) in
        record {
          size = ground (arith, e, length-set tails lo x);
          here = get_or-set_self tails lo x (pos 0) q;
          others = λ i n p. (
            omega (arith, p, length-set tails lo x),
            get_or-set_ne tails lo i x (pos 0) (λ e. n (sym e)),
          );
        })
