-- ===== src/Newspaper/Wrap.antt =====
-- The word wrapping of newspaper_formatter.go.
use leetsheet.Prelude.{
  ℕ, ◌+◌, ◌≤◌, ◌≡◌, ◌≢◌, refl, ap, ◌∙◌, List, [], ◌∷◌, ◌++◌, arith, inl, inr, if-cases, Bool-cases,
  length, length-append, All, All-append,
}
use mathlib.Core.List.{append_assoc}
use leetsheet.Prelude.Int.{ℤ, pos, leb_ℤ}
use leetsheet.Prelude.Text.{Bytes, str_eq, str_eq→eq}
use leetsheet.Newspaper.{wrap_loop, wrap}

-- Texts one after another with a blank between each two.
pub join : List Bytes → Bytes
join [] = []
join (w ∷ []) = w
join (w ∷ v ∷ ws) = w ++ (32 ∷ join (v ∷ ws))

-- A text after others: with a blank before it unless there are none.
join-append :
    (us : List Bytes) (v : Bytes) (ws : List Bytes)
    → join (us ++ (v ∷ ws)) ≡ join (us ++ (join (v ∷ ws) ∷ []))
unfolding join
join-append [] v ws = refl
join-append (u ∷ []) v ws = refl
join-append (u ∷ u' ∷ us) v ws = ap (λ r. u ++ (32 ∷ r)) (join-append (u' ∷ us) v ws)

join-pair :
    (us : List Bytes) (a b : Bytes) (ws : List Bytes)
    → join (us ++ ((a ++ (32 ∷ b)) ∷ ws)) ≡ join (us ++ (a ∷ b ∷ ws))
unfolding join
join-pair [] a b [] = refl
join-pair [] a b (w ∷ ws) = append_assoc a (32 ∷ b) (32 ∷ join (w ∷ ws))
join-pair (u ∷ []) a b ws = ap (λ r. u ++ (32 ∷ r)) (join-pair [] a b ws)
join-pair (u ∷ u' ∷ us) a b ws = ap (λ r. u ++ (32 ∷ r)) (join-pair (u' ∷ us) a b ws)

blank_ne : (a b : Bytes) → (a ++ (32 ∷ b)) ≢ []
blank_ne a b k = absurd (omega (arith, length-append a (32 ∷ b), ap length k))

wrap_loop-join :
    (width : ℤ) (lines : List Bytes) (current : Bytes) (para : List Bytes)
    → current ≢ []
    → All (λ w. w ≢ []) para
    → join (wrap_loop width lines current para) ≡ join (lines ++ (current ∷ para))
unfolding wrap_loop
wrap_loop-join width lines current [] ne h = elim (Bool-cases (str_eq current [])) [
  | inl e ↦ absurd (ne (str_eq→eq current [] e))
  | inr e ↦ rw e refl
]
wrap_loop-join width lines current (word ∷ para) ne h = elim (Bool-cases (str_eq current [])) [
  | inl e ↦ absurd (ne (str_eq→eq current [] e))
  | inr e ↦ elim (Bool-cases (leb_ℤ (pos (length current + 1 + length word)) width)) [
    | inl fits ↦
        rw (e, fits)
          (wrap_loop-join width lines (current ++ (32 ∷ word)) para (blank_ne current word) h.1
            ∙ join-pair lines current word para)
    | inr over ↦
        rw (e, over)
          (wrap_loop-join width (lines ++ (current ∷ [])) word para h.0 h.1
            ∙ ap join (append_assoc lines (current ∷ []) (word ∷ para)))
  ]
]

-- The lines of a paragraph whose words are not empty, with blanks between them, are its words with
-- blanks between them: wrapping loses, doubles and moves nothing.
pub wrap-join :
    (width : ℤ) (para : List Bytes) → All (λ w. w ≢ []) para → join (wrap width para) ≡ join para
unfolding wrap wrap_loop str_eq
wrap-join width [] h = refl
wrap-join width (word ∷ para) h = wrap_loop-join width [] word para h.0 h.1

pub length-blank : (a b : Bytes) → length (a ++ (32 ∷ b)) ≡ length a + 1 + length b
length-blank a b = omega (arith, length-append a (32 ∷ b))

wrap_loop-All :
    (n : ℕ) (lines : List Bytes) (current : Bytes) (para : List Bytes)
    → All (λ l. length l ≤ n) lines
    → length current ≤ n
    → All (λ w. length w ≤ n) para
    → All (λ l. length l ≤ n) (wrap_loop (pos n) lines current para)
unfolding wrap_loop
wrap_loop-All n lines current [] done now h =
    if-cases (All (λ l. length l ≤ n)) (str_eq current []) (λ _. done)
      (λ _. All-append (λ l. length l ≤ n) lines (current ∷ []) done (now, tt))
wrap_loop-All n lines current (word ∷ para) done now h =
    if-cases (All (λ l. length l ≤ n)) (str_eq current [])
      (λ _. wrap_loop-All n lines word para done h.0 h.1)
      (λ _.
        if-cases (All (λ l. length l ≤ n)) (leb_ℤ (pos (length current + 1 + length word)) (pos n))
          (λ fits.
            wrap_loop-All n lines (current ++ (32 ∷ word)) para done
              (ground (arith, fits, length-blank current word)) h.1)
          (λ _.
            wrap_loop-All n (lines ++ (current ∷ [])) word para
              (All-append (λ l. length l ≤ n) lines (current ∷ []) done (now, tt)) h.0 h.1))

-- If every word fits into the width, so does every line.
pub wrap-All :
    (n : ℕ) (para : List Bytes)
    → All (λ w. length w ≤ n) para
    → All (λ l. length l ≤ n) (wrap (pos n) para)
unfolding wrap
wrap-All n para h = wrap_loop-All n [] [] para tt (omega arith) h
