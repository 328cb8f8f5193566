-- ===== src/Newspaper.antt =====
-- newspaper_formatter.go: paragraphs wrapped to a width, centred, and framed. A text is its bytes, and
-- `none` is the panic of strings.Repeat at a negative count.
pub mod Wrap
pub mod Page
pub mod Fits
mod Tests
use leetsheet.Prelude.{
  ℕ, zero, suc, ◌+◌, ◌/◌, Bool, true, false, List, [], ◌∷◌, ◌++◌, Option, none, some, if◌then◌else◌,
  length, replicate,
}
use leetsheet.Prelude.Int.{ℤ, pos, negsuc, sub_ℕ, ◌+ℤ◌, ◌-ℤ◌, leb_ℤ}
use leetsheet.Prelude.Text.{Bytes, codes, str_eq}

-- strings.Repeat of a text of one byte.
pub repeat : ℕ → ℤ → Option Bytes
repeat c (pos n) = some (replicate n c)
repeat c (negsuc n) = none

-- Go's division by 2, which rounds towards 0.
pub half : ℤ → ℤ
half (pos n) = pos (n / 2)
half (negsuc n) = sub_ℕ 0 (suc n / 2)

-- The loop over the words of a paragraph, and the line that is left over at its end.
pub wrap_loop : ℤ → List Bytes → Bytes → List Bytes → List Bytes
unfolding str_eq
wrap_loop width lines current [] = if str_eq current [] then lines else lines ++ (current ∷ [])
wrap_loop width lines current (word ∷ para) =
    let first = wrap_loop width lines word para in
    let same = wrap_loop width lines (current ++ (32 ∷ word)) para in
    let next = wrap_loop width (lines ++ (current ∷ [])) word para in
    if str_eq current []
    then first
    else if leb_ℤ (pos (length current + 1 + length word)) width
    then same
    else next

pub wrap : ℤ → List Bytes → List Bytes
unfolding wrap_loop
wrap width para = wrap_loop width [] [] para

framed : Option Bytes → Bytes → Option Bytes → Option Bytes
framed (some leading) line (some trailing) = some (42 ∷ (leading ++ line ++ trailing ++ (42 ∷ [])))
framed _ line _ = none

-- A line in the middle of the width, between stars.
pub center : ℤ → Bytes → Option Bytes
unfolding half repeat framed
center width line =
    let leftover = width -ℤ pos (length line) in
    let leading = half leftover in framed (repeat 32 leading) line (repeat 32 (leftover -ℤ leading))

pub center_all : ℤ → List Bytes → Option (List Bytes)
unfolding center
center_all width [] = some []
center_all width (line ∷ lines) = elim (center width line) [
  | none ↦ none
  | some row ↦ elim (center_all width lines) [ none ↦ none | some rows ↦ some (row ∷ rows) ]
]

pub format_paragraphs : ℤ → List (List Bytes) → Option (List Bytes)
unfolding center_all wrap
format_paragraphs width [] = some []
format_paragraphs width (para ∷ paragraphs) = elim (center_all width (wrap width para)) [
  | none ↦ none
  | some rows ↦ elim (format_paragraphs width paragraphs) [
    | none ↦ none
    | some rest ↦ some (rows ++ rest)
  ]
]

pub format_newspaper : List (List Bytes) → ℤ → Option (List Bytes)
unfolding repeat format_paragraphs
format_newspaper paragraphs width = elim (repeat 42 (width +ℤ pos 2)) [
  | none ↦ none
  | some border ↦ elim (format_paragraphs width paragraphs) [
    | none ↦ none
    | some rows ↦ some (border ∷ (rows ++ (border ∷ [])))
  ]
]
