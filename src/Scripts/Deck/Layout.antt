-- ===== src/Scripts/Deck/Layout.antt =====
-- Where the items of the slides of scripts/generate_ppt.py lie.
pub mod Closing
pub mod Whole
use mathlib.Core.List.{append-nil, append_assoc}
use tinytelegram.Base.{
  ℕ, suc, ◌+◌, ◌≤◌, ◌≡◌, refl, arith, Bool, true, false, ◌&&◌, Option, none, some, List, [], ◌∷◌,
  ◌++◌, leb, ltb, map,
}
use tinytelegram.Scripts.Deck.Pptx.{
  Area, Item, shape, text_box, picture, Paragraph, unset, Line, Image, Slide, sw, sh, ml, ml_loop,
  write_line,
}

abbrev pub area_fits : Area → Bool
area_fits a = leb (a.x + a.w) sw && leb (a.y + a.h) sh

-- On the slide. A picture that has a width is as high as `height` says; other pictures do not occur.
abbrev pub fits : (Image → ℕ → ℕ) → Item → Bool
fits height (shape a rounded fill line) = area_fits a
fits height (text_box a anchor paragraphs) = area_fits a
fits height (picture img x y (some w) none) = leb (x + w) sw && leb (y + height img w) sh
fits height (picture img x y none h) = false
fits height (picture img x y (some w) (some h)) = false

abbrev pub all_fit : (Image → ℕ → ℕ) → List Item → Bool
all_fit height [] = true
all_fit height (item ∷ items) = fits height item && all_fit height items

-- The areas share a part.
abbrev pub overlaps : Area → Area → Bool
overlaps a b =
    (ltb a.x (b.x + b.w) && ltb b.x (a.x + a.w)) && (ltb a.y (b.y + b.h) && ltb b.y (a.y + a.h))

abbrev area_overlaps : Area → Item → Bool
area_overlaps a (shape b rounded fill line) = overlaps a b
area_overlaps a (text_box b anchor paragraphs) = overlaps a b
area_overlaps a (picture img x y w h) = false

abbrev item_overlaps : Item → Item → Bool
item_overlaps (shape a rounded fill line) j = area_overlaps a j
item_overlaps (text_box a anchor paragraphs) j = area_overlaps a j
item_overlaps (picture img x y w h) j = false

abbrev pub any_overlaps : List Item → List Item → Bool
any_overlaps (i ∷ []) (j ∷ []) = item_overlaps i j
any_overlaps _ _ = false
