-- ===== src/Prelude/Wrap.antt =====
-- Go's int on 64 bits: sums and differences wrap around.
use leetsheet.Prelude.{
  ℕ, ◌+◌, ◌-◌, ◌*◌, ◌/◌, ◌%◌, ◌<◌, ◌≤◌, ◌≡◌, refl, ap, ◌∙◌, arith, ltb, if-cases,
}
use leetsheet.Prelude.Int.{
  ℤ, pos, negsuc, pos_part, neg_part, ◌+ℤ◌, ◌-ℤ◌, signed64, +ℤ_parts, -ℤ_parts, eq_of_parts,
}

-- The bit pattern of the int64 that a number wraps to.
bits : ℤ → ℕ
bits (pos n) = n % 18446744073709551616
bits (negsuc n) = 18446744073709551615 - n % 18446744073709551616

unfoldable pub wrap : ℤ → ℤ
unfolding bits
wrap x = signed64 (bits x)

abbrev pub add64 : ℤ → ℤ → ℤ
add64 a b = wrap (a +ℤ b)

abbrev pub sub64 : ℤ → ℤ → ℤ
sub64 a b = wrap (a -ℤ b)

abbrev pub IsInt64 : ℤ → Type 0
IsInt64 x = (pos_part x < 9223372036854775808) × (neg_part x ≤ 9223372036854775808)

-- Equal but for a multiple of 2^64.
Cong : ℤ → ℤ → Type 0
Cong x y =
    (m n : ℕ) × (pos_part x + neg_part y + m * 18446744073709551616
      ≡ pos_part y + neg_part x + n * 18446744073709551616)

signed64-IsInt64 : (b : ℕ) → b < 18446744073709551616 → IsInt64 (signed64 b)
signed64-IsInt64 b h = (ground (arith, h), ground (arith, h))

bits-lt : (x : ℤ) → bits x < 18446744073709551616
unfolding bits
bits-lt (pos n) = omega arith
bits-lt (negsuc n) = omega arith

pub wrap-IsInt64 : (x : ℤ) → IsInt64 (wrap x)
unfolding wrap
wrap-IsInt64 x = signed64-IsInt64 (bits x) (bits-lt x)

signed64-Cong : (b : ℕ) → b < 18446744073709551616 → Cong (pos b) (signed64 b)
unfolding Cong
signed64-Cong b h =
    if-cases
      (λ z.
        (m n : ℕ) × (b + neg_part z + m * 18446744073709551616
          ≡ pos_part z + 0 + n * 18446744073709551616))
      (ltb b 9223372036854775808) (λ _. (0, 0, omega arith)) (λ _. (0, 1, omega (arith, h)))

bits-Cong : (x : ℤ) → Cong x (pos (bits x))
unfolding bits Cong
bits-Cong (pos n) = (0, n / 18446744073709551616, omega arith)
bits-Cong (negsuc n) = (n / 18446744073709551616 + 1, 0, omega arith)

Cong-trans : (x y z : ℤ) → Cong x y → Cong y z → Cong x z
unfolding Cong
Cong-trans x y z (m, n, h) (m', n', h') = (m + m', n + n', omega (arith, h, h'))

Cong-sym : (x y : ℤ) → Cong x y → Cong y x
unfolding Cong
Cong-sym x y (m, n, h) = (n, m, omega (arith, h))

wrap-Cong : (x : ℤ) → Cong x (wrap x)
unfolding wrap
wrap-Cong x =
    Cong-trans x (pos (bits x)) (wrap x) (bits-Cong x) (signed64-Cong (bits x) (bits-lt x))

-- Two int64 that differ by a multiple of 2^64 are equal.
Cong-eq : (x y : ℤ) → IsInt64 x → IsInt64 y → Cong x y → x ≡ y
unfolding Cong
Cong-eq x y a b (m, n, h) = eq_of_parts x y (omega (arith, a.0, a.1, b.0, b.1, h))

wrap-eq : (x y : ℤ) → Cong x y → wrap x ≡ wrap y
wrap-eq x y h = Cong-eq (wrap x) (wrap y) (wrap-IsInt64 x) (wrap-IsInt64 y) (
    Cong-trans (wrap x) x (wrap y) (Cong-sym x (wrap x) (wrap-Cong x))
      (Cong-trans x y (wrap y) h (wrap-Cong y)))

pub wrap_id : (x : ℤ) → IsInt64 x → wrap x ≡ x
wrap_id x h = Cong-eq (wrap x) x (wrap-IsInt64 x) h (Cong-sym x (wrap x) (wrap-Cong x))

eq-Cong : (x y : ℤ) → x ≡ y → Cong x y
unfolding Cong
eq-Cong x y e = (0, 0, omega (arith, ap pos_part e, ap neg_part e))

Cong-add : (x x' y y' : ℤ) → Cong x x' → Cong y y' → Cong (x +ℤ y) (x' +ℤ y')
unfolding Cong
Cong-add x x' y y' (m, n, h) (m', n', h') =
    (m + m', n + n', omega (arith, +ℤ_parts x y, +ℤ_parts x' y', h, h'))

Cong-sub : (x x' y y' : ℤ) → Cong x x' → Cong y y' → Cong (x -ℤ y) (x' -ℤ y')
unfolding Cong
Cong-sub x x' y y' (m, n, h) (m', n', h') =
    (m + n', n + m', omega (arith, -ℤ_parts x y, -ℤ_parts x' y', h, h'))

Cong-refl : (x : ℤ) → Cong x x
Cong-refl x = eq-Cong x x refl

int_assoc : (s a x : ℤ) → (s +ℤ a) +ℤ x ≡ s +ℤ (a +ℤ x)
int_assoc s a x =
    eq_of_parts ((s +ℤ a) +ℤ x) (s +ℤ (a +ℤ x))
      (omega (arith, +ℤ_parts s a, +ℤ_parts (s +ℤ a) x, +ℤ_parts a x, +ℤ_parts s (a +ℤ x)))

pub add64_assoc : (s a x : ℤ) → add64 (add64 s a) x ≡ add64 s (add64 a x)
add64_assoc s a x = wrap-eq (wrap (s +ℤ a) +ℤ x) (s +ℤ wrap (a +ℤ x)) (
    Cong-trans _ ((s +ℤ a) +ℤ x) _
      (Cong-add (wrap (s +ℤ a)) (s +ℤ a) x x (Cong-sym (s +ℤ a) _ (wrap-Cong (s +ℤ a)))
        (Cong-refl x))
      (Cong-trans _ (s +ℤ (a +ℤ x)) _ (eq-Cong _ _ (int_assoc s a x))
        (Cong-add s s (a +ℤ x) (wrap (a +ℤ x)) (Cong-refl s) (wrap-Cong (a +ℤ x)))))

pub add64_zero : (s : ℤ) → IsInt64 s → add64 s (pos 0) ≡ s
add64_zero s h =
    ap wrap (eq_of_parts (s +ℤ pos 0) s (omega (arith, +ℤ_parts s (pos 0)))) ∙ wrap_id s h

add_sub : (x y : ℤ) → (x +ℤ y) -ℤ y ≡ x
add_sub x y = eq_of_parts ((x +ℤ y) -ℤ y) x (omega (arith, +ℤ_parts x y, -ℤ_parts (x +ℤ y) y))

sub_add : (x y : ℤ) → (x -ℤ y) +ℤ y ≡ x
sub_add x y = eq_of_parts ((x -ℤ y) +ℤ y) x (omega (arith, -ℤ_parts x y, +ℤ_parts (x -ℤ y) y))

pub sub64-add64 : (x y : ℤ) → IsInt64 x → sub64 (add64 x y) y ≡ x
sub64-add64 x y h =
    wrap-eq (wrap (x +ℤ y) -ℤ y) x (
      Cong-trans _ ((x +ℤ y) -ℤ y) _
        (Cong-sub (wrap (x +ℤ y)) (x +ℤ y) y y (Cong-sym (x +ℤ y) _ (wrap-Cong (x +ℤ y)))
          (Cong-refl y))
        (eq-Cong _ _ (add_sub x y)))
    ∙ wrap_id x h

pub add64-sub64 : (x y : ℤ) → IsInt64 x → add64 (sub64 x y) y ≡ x
add64-sub64 x y h =
    wrap-eq (wrap (x -ℤ y) +ℤ y) x (
      Cong-trans _ ((x -ℤ y) +ℤ y) _
        (Cong-add (wrap (x -ℤ y)) (x -ℤ y) y y (Cong-sym (x -ℤ y) _ (wrap-Cong (x -ℤ y)))
          (Cong-refl y))
        (eq-Cong _ _ (sub_add x y)))
    ∙ wrap_id x h
