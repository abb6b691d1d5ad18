-- ===== src/Scripts/Deck/Tests.antt =====
-- The theorems about the presentation at concrete inputs.
use tinytelegram.Base.{ℕ, ◌/◌, ◌≡◌, ◌≤◌, ◌↔◌, refl, arith, true, length}
use tinytelegram.Scripts.Deck.Pptx.{Image, str}
use tinytelegram.Scripts.Deck.Rows.{takeaways_end}
use tinytelegram.Scripts.Deck.Slides.Conclusion.{results, concepts_line, thank_you, conclusion_with}
use tinytelegram.Scripts.Deck.Whole.{presentation}
use tinytelegram.Scripts.Deck.Layout.{all_fit, any_overlaps}
use tinytelegram.Scripts.Deck.Layout.Closing.{conclusion_layout}
use tinytelegram.Scripts.Deck.Layout.Whole.{slides_fit, presentation_fits}

-- Every picture is half as high as it is wide.
abbrev half : Image → ℕ → ℕ
half img w = w / 2

fits_at_half : slides_fit half presentation ≡ true
fits_at_half = presentation_fits half (omega arith) (omega arith) (omega arith) (omega arith)

conclusion_layout_example :
    ((all_fit half (conclusion_with results).items ≡ true) ↔ (length results ≤ 7))
    × ((any_overlaps (concepts_line (takeaways_end 1200 results)) thank_you ≡ true)
        ↔ (length results ≡ 6))
conclusion_layout_example = conclusion_layout half results

-- The presentation has six takeaways.
six_overlap : any_overlaps (concepts_line (takeaways_end 1200 results)) thank_you ≡ true
six_overlap = conclusion_layout_example.1.1 refl

ten_slides : length presentation ≡ 10
unfolding presentation
ten_slides = refl

page_ten : str 10 ≡ "10"
page_ten = refl
