-- ===== src/Newspaper/Fits.antt =====
-- When the page of newspaper_formatter.go is made, and when strings.Repeat panics.
use leetsheet.Prelude.{
  ℕ, ◌+◌, ◌≤◌, ◌<◌, ◌≡◌, ◌↔◌, ◌⊎◌, true, List, [], ◌∷◌, ◌++◌, Option, none, some, arith, inl, inr,
  ltb, Bool-cases, length, All, All-split, replicate,
}
use leetsheet.Prelude.Int.{pos, leb_ℤ}
use leetsheet.Prelude.Text.{Bytes, str_eq, str_eq→eq}
use leetsheet.Newspaper.{repeat, center_all, wrap_loop, wrap, format_paragraphs, format_newspaper}
use leetsheet.Newspaper.Wrap.{length-blank}
use leetsheet.Newspaper.Page.{
  IsMade, IsMade-AreWide, row, center_lem, center-none, format_newspaper-AreWide, border_width,
}

-- The two branches by the length of a line.
within : (n : ℕ) (line : Bytes) → (length line ≤ n) ⊎ (n < length line)
within n line = elim (Bool-cases (ltb n (length line))) [
  | inl e ↦ inr (ground (arith, e))
  | inr e ↦ inl (ground (arith, e))
]

rest-IsMade :
    (r : Bytes) (rest : Option (List Bytes))
    → IsMade (elim rest [ none ↦ none | some rows ↦ some (r ∷ rows) ])
    → IsMade rest
unfolding IsMade
rest-IsMade r (some rows) made = tt
rest-IsMade r none made = made

center_all-fits :
    (n : ℕ) (lines : List Bytes) → IsMade (center_all (pos n) lines) → All (λ l. length l ≤ n) lines
unfolding center_all IsMade
center_all-fits n [] made = tt
center_all-fits n (line ∷ lines) made = elim (within n line) [
  | inl h ↦ (
    h,
    center_all-fits n lines (
        rest-IsMade (row n line) (center_all (pos n) lines)
          (rw (IsMade, center_all, center_lem n line h) at made)),
  )
  | inr h ↦ absurd (rw (IsMade, center_all, center-none n line h) at made)
]

empty_fits : (n : ℕ) (current : Bytes) → str_eq current [] ≡ true → length current ≤ n
empty_fits n current e = rw (str_eq→eq current [] e) (omega arith)

wrap_loop-fits :
    (n : ℕ) (lines : List Bytes) (current : Bytes) (para : List Bytes)
    → All (λ l. length l ≤ n) (wrap_loop (pos n) lines current para)
    → All (λ l. length l ≤ n) lines × ((length current ≤ n) × All (λ w. length w ≤ n) para)
unfolding wrap_loop
wrap_loop-fits n lines current [] h = elim (Bool-cases (str_eq current [])) [
  | inl e ↦ (rw (All, wrap_loop, e) at h, (empty_fits n current e, tt))
  | inr e ↦
      let (hl, hc) =
        All-split (λ l. length l ≤ n) lines (current ∷ []) (rw (All, wrap_loop, e) at h) in
      (hl, hc)
]
wrap_loop-fits n lines current (word ∷ para) h = elim (Bool-cases (str_eq current [])) [
  | inl e ↦
      let (hl, (hw, hp)) = wrap_loop-fits n lines word para (rw (All, wrap_loop, e) at h) in
      (hl, (empty_fits n current e, (hw, hp)))
  | inr e ↦ elim (Bool-cases (leb_ℤ (pos (length current + 1 + length word)) (pos n))) [
    | inl fits ↦
        let (hl, (hw, hp)) =
          wrap_loop-fits n lines (current ++ (32 ∷ word)) para
            (rw (All, wrap_loop, e, fits) at h) in
        (
          hl,
          (
            omega (arith, hw, length-blank current word),
            (omega (arith, hw, length-blank current word), hp),
          ),
        )
    | inr over ↦
        let (hl, (hw, hp)) =
          wrap_loop-fits n (lines ++ (current ∷ [])) word para
            (rw (All, wrap_loop, e, over) at h) in
        let (hk, hc) = All-split (λ l. length l ≤ n) lines (current ∷ []) hl in
        (hk, (hc.0, (hw, hp)))
  ]
]

both-IsMade :
    (first rest : Option (List Bytes))
    → IsMade (elim first [
      | none ↦ none
      | some rows ↦ elim rest [ none ↦ none | some others ↦ some (rows ++ others) ]
    ])
    → IsMade first × IsMade rest
unfolding IsMade
both-IsMade (some rows) (some others) made = (tt, tt)
both-IsMade (some rows) none made = absurd made
both-IsMade none rest made = absurd made

format_paragraphs-fits :
    (n : ℕ) (paragraphs : List (List Bytes))
    → IsMade (format_paragraphs (pos n) paragraphs)
    → All (All (λ w. length w ≤ n)) paragraphs
unfolding format_paragraphs wrap
format_paragraphs-fits n [] made = tt
format_paragraphs-fits n (para ∷ paragraphs) made =
    let (first, rest) =
      both-IsMade (center_all (pos n) (wrap (pos n) para)) (format_paragraphs (pos n) paragraphs)
        made in
    let (_, (_, words)) =
      wrap_loop-fits n [] [] para (center_all-fits n (wrap (pos n) para) first) in
    (words, format_paragraphs-fits n paragraphs rest)

body-IsMade :
    (border : Bytes) (body : Option (List Bytes))
    → IsMade (elim body [ none ↦ none | some rows ↦ some (border ∷ (rows ++ (border ∷ []))) ])
    → IsMade body
unfolding IsMade
body-IsMade border (some rows) made = tt
body-IsMade border none made = made

-- For a width that is not negative, a page is made, without a panic, exactly when no word of any
-- paragraph is wider than the page.
pub format_newspaper-IsMade :
    (paragraphs : List (List Bytes)) (n : ℕ)
    → IsMade (format_newspaper paragraphs (pos n)) ↔ All (All (λ w. length w ≤ n)) paragraphs
unfolding format_newspaper repeat IsMade
format_newspaper-IsMade paragraphs n = (
  λ made. format_paragraphs-fits n paragraphs (
      body-IsMade (replicate (n + 2) 42) (format_paragraphs (pos n) paragraphs)
        (rw (IsMade, format_newspaper, border_width n) at made)),
  λ h.
      IsMade-AreWide (n + 2) (format_newspaper paragraphs (pos n))
        (format_newspaper-AreWide paragraphs n h),
)
