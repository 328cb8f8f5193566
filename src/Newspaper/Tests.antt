-- ===== src/Newspaper/Tests.antt =====
-- The page of the file's own comment, and the theorems on concrete paragraphs.
use leetsheet.Prelude.{◌≡◌, ◌↔◌, refl, List, [], ◌∷◌, none, some, All, ◌≤◌, length, arith}
use leetsheet.Prelude.Int.{pos, ◌+ℤ◌, ◌-ℤ◌}
use leetsheet.Prelude.Text.{Bytes, codes}
use leetsheet.Newspaper.{wrap, format_newspaper}
use leetsheet.Newspaper.Wrap.{join, wrap-join}
use leetsheet.Newspaper.Fits.{format_newspaper-IsMade}
use leetsheet.Newspaper.Page.{IsMade, AreWide, format_newspaper-AreWide}

abbrev how_are_you : List Bytes
how_are_you = codes "How" ∷ codes "areYou" ∷ codes "doing" ∷ []

abbrev please_look : List Bytes
please_look = codes "Please look" ∷ codes "and align" ∷ codes "to center" ∷ []

documented_page :
    format_newspaper
      ((codes "hello" ∷ codes "world" ∷ []) ∷ how_are_you ∷ please_look ∷ [])
      (pos 16)
    ≡ some (
        codes "******************"
        ∷ codes "*  hello world   *"
        ∷ codes "*How areYou doing*"
        ∷ codes "*  Please look   *"
        ∷ codes "*   and align    *"
        ∷ codes "*   to center    *"
        ∷ codes "******************"
        ∷ [])
unfolding format_newspaper ◌+ℤ◌ ◌-ℤ◌
documented_page = refl

word_too_wide : format_newspaper ((codes "leetsheet" ∷ []) ∷ []) (pos 8) ≡ none
unfolding format_newspaper ◌+ℤ◌ ◌-ℤ◌
word_too_wide = refl

wrap-join_example : join (wrap (pos 16) how_are_you) ≡ join how_are_you
wrap-join_example =
    wrap-join (pos 16) how_are_you
      ((λ e. absurd (cc e)), ((λ e. absurd (cc e)), ((λ e. absurd (cc e)), tt)))

format_newspaper-AreWide_example :
    AreWide 18 (format_newspaper (how_are_you ∷ please_look ∷ []) (pos 16))
format_newspaper-AreWide_example = format_newspaper-AreWide (how_are_you ∷ please_look ∷ []) 16 (
  (omega arith, (omega arith, (omega arith, tt))),
  ((omega arith, (omega arith, (omega arith, tt))), tt),
)

format_newspaper-IsMade_example :
    IsMade (format_newspaper (how_are_you ∷ please_look ∷ []) (pos 10))
    ↔ All (All (λ w. length w ≤ 10)) (how_are_you ∷ please_look ∷ [])
format_newspaper-IsMade_example = format_newspaper-IsMade (how_are_you ∷ please_look ∷ []) 10
