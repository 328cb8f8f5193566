-- ===== src/Newspaper/Page.antt =====
-- The centred lines and the whole page of newspaper_formatter.go.
use leetsheet.Prelude.{
  ℕ, suc, ◌+◌, ◌-◌, ◌/◌, ◌≤◌, ◌<◌, ◌≡◌, refl, ◌∙◌, List, [], ◌∷◌, ◌++◌, Option, none, some, arith,
  length, length-append, replicate, length-replicate, All, All-append,
}
use leetsheet.Prelude.Int.{pos, negsuc, ◌+ℤ◌, ◌-ℤ◌}
use leetsheet.Prelude.Text.{Bytes}
use leetsheet.Newspaper.{
  repeat, half, framed, center, center_all, wrap, format_paragraphs, format_newspaper,
}
use leetsheet.Newspaper.Wrap.{wrap-All}

-- The result is there, and its rows have n bytes each.
pub AreWide : ℕ → Option (List Bytes) → Type 0
AreWide n (some rows) = All (λ r. length r ≡ n) rows
AreWide n none = ⊥

-- The result is there.
unfoldable pub IsMade : Option (List Bytes) → Type 0
IsMade (some rows) = Unit
IsMade none = ⊥

pub IsMade-AreWide : (n : ℕ) (page : Option (List Bytes)) → AreWide n page → IsMade page
unfolding IsMade AreWide
IsMade-AreWide n (some rows) h = tt
IsMade-AreWide n none h = h

pos_sub : (a b : ℕ) → b ≤ a → pos a -ℤ pos b ≡ pos (a - b)
unfolding ◌-ℤ◌
pos_sub a b h = ground arith

pub row : ℕ → Bytes → Bytes
row n line =
    let leading = (n - length line) / 2 in
    42 ∷ (replicate leading 32 ++ line ++ replicate (n - length line - leading) 32 ++ (42 ∷ []))

half_le : (k : ℕ) → k / 2 ≤ k
half_le k = omega arith

pub center_lem : (n : ℕ) (line : Bytes) → length line ≤ n → center (pos n) line ≡ some (row n line)
unfolding center row half repeat framed
center_lem n line h =
    rw
      (
        pos_sub n (length line) h,
        pos_sub (n - length line) ((n - length line) / 2) (half_le (n - length line)),
      )
      refl

length-framed :
    (p line q : Bytes)
    → length (42 ∷ (p ++ line ++ q ++ (42 ∷ []))) ≡ length p + length line + length q + 2
length-framed p line q = omega (
  arith,
  length-append (p ++ line ++ q) (42 ∷ []),
  length-append (p ++ line) q,
  length-append p line,
)

length-row : (n : ℕ) (line : Bytes) → length line ≤ n → length (row n line) ≡ n + 2
unfolding row
length-row n line h =
    let k : ℕ = (n - length line) / 2 in
    let r : ℕ = n - length line - k in
    length-framed (replicate k 32) line (replicate r 32)
    ∙ omega (
      arith,
      length-replicate {A = ℕ} k 32,
      length-replicate {A = ℕ} r 32,
      half_le (n - length line),
    )

cons-AreWide :
    (n : ℕ) (r : Bytes) (rest : Option (List Bytes))
    → length r ≡ n
    → AreWide n rest
    → AreWide n (elim rest [ none ↦ none | some rows ↦ some (r ∷ rows) ])
unfolding AreWide
cons-AreWide n r (some rows) e h = (e, h)
cons-AreWide n r none e h = absurd h

center_all-AreWide :
    (n : ℕ) (lines : List Bytes)
    → All (λ l. length l ≤ n) lines
    → AreWide (n + 2) (center_all (pos n) lines)
unfolding center_all AreWide
center_all-AreWide n [] h = tt
center_all-AreWide n (line ∷ lines) h =
    rw (AreWide, center_all, center_lem n line h.0)
      (cons-AreWide (n + 2) (row n line) (center_all (pos n) lines) (length-row n line h.0)
        (center_all-AreWide n lines h.1))

append-AreWide :
    (n : ℕ) (first rest : Option (List Bytes))
    → AreWide n first
    → AreWide n rest
    → AreWide n (elim first [
      | none ↦ none
      | some rows ↦ elim rest [ none ↦ none | some others ↦ some (rows ++ others) ]
    ])
unfolding AreWide
append-AreWide n (some rows) (some others) h k = All-append (λ r. length r ≡ n) rows others h k
append-AreWide n (some rows) none h k = absurd k
append-AreWide n none rest h k = absurd h

format_paragraphs-AreWide :
    (n : ℕ) (paragraphs : List (List Bytes))
    → All (All (λ w. length w ≤ n)) paragraphs
    → AreWide (n + 2) (format_paragraphs (pos n) paragraphs)
unfolding format_paragraphs AreWide
format_paragraphs-AreWide n [] h = tt
format_paragraphs-AreWide n (para ∷ paragraphs) h =
    append-AreWide (n + 2) (center_all (pos n) (wrap (pos n) para))
      (format_paragraphs (pos n) paragraphs)
      (center_all-AreWide n (wrap (pos n) para) (wrap-All n para h.0))
      (format_paragraphs-AreWide n paragraphs h.1)

frame-AreWide :
    (n : ℕ) (border : Bytes) (body : Option (List Bytes))
    → length border ≡ n
    → AreWide n body
    → AreWide n (elim body [ none ↦ none | some rows ↦ some (border ∷ (rows ++ (border ∷ []))) ])
unfolding AreWide
frame-AreWide n border (some rows) e h =
    (e, All-append (λ r. length r ≡ n) rows (border ∷ []) h (e, tt))
frame-AreWide n border none e h = absurd h

pub border_width : (n : ℕ) → pos n +ℤ pos 2 ≡ pos (n + 2)
unfolding ◌+ℤ◌
border_width n = ground arith

-- A page of a width that no word exceeds is made without a panic, and all its rows, the borders
-- included, have that width and two bytes more.
pub format_newspaper-AreWide :
    (paragraphs : List (List Bytes)) (n : ℕ)
    → All (All (λ w. length w ≤ n)) paragraphs
    → AreWide (n + 2) (format_newspaper paragraphs (pos n))
unfolding format_newspaper repeat AreWide
format_newspaper-AreWide paragraphs n h =
    rw (AreWide, border_width n)
      (frame-AreWide (n + 2) (replicate (n + 2) 42) (format_paragraphs (pos n) paragraphs)
        (length-replicate (n + 2) 42) (format_paragraphs-AreWide n paragraphs h))

negative_half : (m : ℕ) → (t : ℕ) × (negsuc m -ℤ half (negsuc m) ≡ negsuc t)
unfolding half ◌-ℤ◌
negative_half m = (m - suc m / 2, ground (arith, half_le m))

framed-none : (leading : Option Bytes) (line : Bytes) → framed leading line none ≡ none
unfolding framed
framed-none (some leading) line = refl
framed-none none line = refl

below : (a b : ℕ) → a < b → pos a -ℤ pos b ≡ negsuc (b - a - 1)
unfolding ◌-ℤ◌
below a b h = ground arith

pub center-none : (n : ℕ) (line : Bytes) → n < length line → center (pos n) line ≡ none
unfolding center repeat
center-none n line h =
    let m : ℕ = length line - n - 1 in
    rw (below n (length line) h, (negative_half m).1)
      (framed-none (repeat 32 (half (negsuc m))) line)
