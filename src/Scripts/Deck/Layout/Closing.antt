-- ===== src/Scripts/Deck/Layout/Closing.antt =====
-- The last slide, whose lower part moves down with the number of takeaways.
use tinytelegram.Base.{
  ℕ, ◌+◌, ◌*◌, ◌≤◌, ◌≡◌, ◌↔◌, refl, arith, true, String, List, [], ◌∷◌, ◌++◌, ◌&&◌, length,
}
use tinytelegram.Scripts.Deck.Pptx.{Item, Image}
use tinytelegram.Scripts.Deck.Rows.{takeaway_rows, takeaways_end}
use tinytelegram.Scripts.Deck.Slides.Conclusion.{concepts_line, thank_you, conclusion_with}
use tinytelegram.Scripts.Deck.Layout.{all_fit, any_overlaps}

takeaways_end_lem :
    (cy : ℕ) (rows : List (String × String × String))
    → takeaways_end cy rows ≡ cy + 730 * length rows
unfolding takeaways_end
takeaways_end_lem cy [] = omega arith
takeaways_end_lem cy (row ∷ rows) = omega (arith, takeaways_end_lem (cy + 730) rows)

-- The line of concepts overlaps the text "Thank You!" exactly if there are six takeaways.
closing_overlap :
    (rows : List (String × String × String))
    → (any_overlaps (concepts_line (takeaways_end 1200 rows)) thank_you ≡ true) ↔ (length rows ≡ 6)
unfolding concepts_line thank_you
closing_overlap rows = ground (arith, takeaways_end_lem 1200 rows)

all_fit-append :
    (height : Image → ℕ → ℕ) (xs ys : List Item)
    → all_fit height (xs ++ ys) ≡ all_fit height xs && all_fit height ys
all_fit-append height [] ys = refl
all_fit-append height (x ∷ xs) ys = ground (arith, all_fit-append height xs ys)

rows_fit :
    (height : Image → ℕ → ℕ) (cy : ℕ) (rows : List (String × String × String))
    → cy + 730 * length rows ≤ 7500
    → all_fit height (takeaway_rows cy rows) ≡ true
unfolding takeaway_rows
rows_fit height cy [] h = refl
rows_fit height cy (row ∷ rows) h = ground (arith, rows_fit height (cy + 730) rows)

-- The whole slide lies on the page exactly if there are at most seven takeaways.
pub conclusion_fits :
    (height : Image → ℕ → ℕ) (rows : List (String × String × String))
    → (all_fit height (conclusion_with rows).items ≡ true) ↔ (length rows ≤ 7)
unfolding conclusion_with concepts_line thank_you
conclusion_fits height rows =
    rw (all_fit-append height (takeaway_rows 1200 rows) _)
      (ground (arith, takeaways_end_lem 1200 rows, rows_fit height 1200 rows))

pub conclusion_layout :
    (height : Image → ℕ → ℕ) (rows : List (String × String × String))
    → ((all_fit height (conclusion_with rows).items ≡ true) ↔ (length rows ≤ 7))
      × ((any_overlaps (concepts_line (takeaways_end 1200 rows)) thank_you ≡ true)
          ↔ (length rows ≡ 6))
conclusion_layout height rows = (conclusion_fits height rows, closing_overlap rows)
