-- ===== src/JobQueue/Heap/Sums.antt =====
-- Sums over the entries of a heap, whatever their order.
use leetsheet.Prelude.{
  ℕ, zero, suc, ◌+◌, ◌-◌, ◌<◌, ◌≡◌, refl, ap, ◌∙◌, Bool, List, [], ◌∷◌, arith, ◌==◌, ◌||◌, not,
  if◌then◌else◌, if-cases, inl, inr, Bool-cases, length, length-append,
}
use leetsheet.JobQueue.Heap.{at, swap, parent, push_back, up_loop, push}
use leetsheet.JobQueue.Heap.Arrays.{count, is, count-append, count-swap, length-swap}

abbrev pub total : (ℕ → ℕ) → List ℕ → ℕ
total f [] = 0
total f (x ∷ a) = f x + total f a

-- A list without the first place of an entry.
without : ℕ → List ℕ → List ℕ
without x [] = []
without x (y ∷ a) = if y == x then a else y ∷ without x a

count-without :
    (x : ℕ) (a : List ℕ) → 0 < count x a → (y : ℕ) → count y a ≡ is x y + count y (without x a)
unfolding without
count-without x [] h y = absurd (omega arith)
count-without x (z ∷ a) h y = elim (Bool-cases (z == x)) [
  | inl e ↦
      let same : z ≡ x = ground (arith, e) in rw (without, e) (omega (arith, ap (λ w. is w y) same))
  | inr e ↦ rw (without, e) (omega (arith, count-without x a (ground (arith, e, h)) y))
]

total-without :
    (f : ℕ → ℕ) (x : ℕ) (a : List ℕ) → 0 < count x a → total f a ≡ f x + total f (without x a)
unfolding without
total-without f x [] h = absurd (omega arith)
total-without f x (z ∷ a) h = elim (Bool-cases (z == x)) [
  | inl e ↦ let same : z ≡ x = ground (arith, e) in rw (without, e) (omega (arith, ap f same))
  | inr e ↦ rw (without, e) (omega (arith, total-without f x a (ground (arith, e, h))))
]

-- Lists with the same entries, in any order, have the same sum.
pub total-count :
    (f : ℕ → ℕ) (a b : List ℕ) → ((y : ℕ) → count y a ≡ count y b) → total f a ≡ total f b
total-count f [] [] h = refl
total-count f [] (y ∷ b) h = absurd (ground (arith, h y))
total-count f (x ∷ a) b h =
    let there : 0 < count x b = ground (arith, h x) in
    omega (
      arith,
      total-without f x b there,
      total-count f a (without x b) (λ y. omega (arith, h y, count-without x b there y)),
    )

-- Two weights that agree on the entries of a list.
pub total-same :
    (f g : ℕ → ℕ) (a : List ℕ) → ((x : ℕ) → 0 < count x a → f x ≡ g x) → total f a ≡ total g a
total-same f g [] h = refl
total-same f g (x ∷ a) h =
    omega (arith, h x (ground arith), total-same f g a (λ y p. h y (omega arith)))

module _ (less : ℕ → ℕ → Bool) where
  count-up_loop :
      (p k : ℕ) (a : List ℕ) (j : ℕ) → j < length a → count p (up_loop less k a j) ≡ count p a
  unfolding up_loop
  count-up_loop p zero a j h = refl
  count-up_loop p (suc k) a j h =
      if-cases (λ b. count p b ≡ count p a) (parent j == j || not (less (at a j) (at a (parent j))))
        (λ _. refl)
        (λ _.
          count-up_loop p k (swap a (parent j) j) (parent j)
            (omega (arith, length-swap a (parent j) j))
          ∙ count-swap a (parent j) j (omega arith) h p)

  pub total-push : (f : ℕ → ℕ) (a : List ℕ) (x : ℕ) → total f (push less a x) ≡ f x + total f a
  unfolding push
  total-push f a x =
      let b = push_back a x in
      total-count f (push less a x) (x ∷ a) (λ p.
        count-up_loop p (length b) b (length b - 1) (omega (arith, length-append {0} a (x ∷ [])))
        ∙ omega (arith, count-append p a (x ∷ [])))
