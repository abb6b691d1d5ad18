-- ===== src/Scripts/Deck/Pptx.antt =====
-- The helpers of scripts/generate_ppt.py, and what a presentation is after their calls of python-pptx.
use Prim.Native.String.{◌++◌ as ◌⊕◌}
use tinytelegram.Base.{
  ℕ, suc, zero, ◌-◌, ◌/◌, ◌%◌, String, Bool, true, false, Option, none, some, List, [], ◌∷◌, ◌++◌,
  ◌==◌, ltb, if◌then◌else◌,
}
use tinytelegram.Scripts.Figure.{Call}

-- The figures hold no computed floats.
abbrev pub Image : Type 0
Image = List (Call (Unit {0}))

pub record Color : Type 0 where
  pub r : ℕ
  pub g : ℕ
  pub b : ℕ

pub data Align : Type 0 where
  left center right : Align

pub data Anchor : Type 0 where
  top middle : Anchor

-- Lengths are thousandths of an inch: those of the script are decimals with at most three places.
pub record Area : Type 0 where
  pub x : ℕ
  pub y : ℕ
  pub w : ℕ
  pub h : ℕ

-- A paragraph as it was added, or with a text and a font; `ml` sets the space around it too.
pub data Paragraph : Type 0 where
  unset : Paragraph
  written : (text : String) (sz : ℕ) (c : Color) (b : Bool) (fn : String) (al : Align) → Paragraph
  spaced : Paragraph → Paragraph

-- The line of a shape is 1.2 points wide, and a text box wraps its words.
pub data Item : Type 0 where
  shape : Area → (rounded : Bool) (fill line : Option Color) → Item
  text_box : Area → Option Anchor → List Paragraph → Item
  picture : Image → (x y : ℕ) (w h : Option ℕ) → Item

pub record Slide : Type 0 where
  pub background : Color
  pub items : List Item

-- SW, SH, TOTAL_SLIDES
abbrev pub sw : ℕ
sw = 13333

abbrev pub sh : ℕ
sh = 7500

abbrev pub total_slides : ℕ
total_slides = 10

abbrev rgb : ℕ → ℕ → ℕ → Color
rgb r g b = record { r = r; g = g; b = b }

abbrev pub red : Color
red = rgb 0xCC 0x00 0x00

abbrev pub dkred : Color
dkred = rgb 0x8B 0x00 0x00

abbrev pub black : Color
black = rgb 0x00 0x00 0x00

abbrev pub white : Color
white = rgb 0xFF 0xFF 0xFF

abbrev pub dkgray : Color
dkgray = rgb 0x33 0x33 0x33

abbrev pub mdgray : Color
mdgray = rgb 0x88 0x88 0x88

abbrev pub ltgray : Color
ltgray = rgb 0xE0 0xE0 0xE0

abbrev pub vlight : Color
vlight = rgb 0xF5 0xF5 0xF5

abbrev pub green : Color
green = rgb 0x2E 0x7D 0x32

abbrev area : ℕ → ℕ → ℕ → ℕ → Area
area x y w h = record { x = x; y = y; w = w; h = h }

-- The keyword arguments of `box`. A colour is a tuple of three numbers, which is true even for black.
pub record BoxStyle : Type 0 where
  pub fill : Option Color
  pub line : Option Color
  pub rd : Bool

abbrev pub unstyled : BoxStyle
unstyled = record { fill = none; line = none; rd = false }

unfoldable pub box : ℕ → ℕ → ℕ → ℕ → BoxStyle → List Item
box l t w h style = shape (area l t w h) style.rd style.fill style.line ∷ []

-- The keyword arguments of `tx`.
pub record TextStyle : Type 0 where
  pub sz : ℕ
  pub c : Color
  pub b : Bool
  pub al : Align
  pub fn : String
  pub anc : Anchor

abbrev pub plain : TextStyle
plain = record { sz = 18; c = black; b = false; al = left; fn = "Segoe UI"; anc = top }

unfoldable pub tx : ℕ → ℕ → ℕ → ℕ → String → TextStyle → List Item
tx l t w h text s =
    text_box (area l t w h) (some s.anc) (written text s.sz s.c s.b s.fn s.al ∷ []) ∷ []

pub record Line : Type 0 where
  pub text : String
  pub size : ℕ
  pub color : Color
  pub bold : Bool
  pub align : Align

abbrev pub line : String → ℕ → Color → Bool → Align → Line
line text size color bold align = record {
  text = text;
  size = size;
  color = color;
  bold = bold;
  align = align;
}

abbrev pub write_line : Line → Paragraph
write_line x = spaced (written x.text x.size x.color x.bold "Segoe UI" x.align)

abbrev set_first : Paragraph → List Paragraph → List Paragraph
set_first p [] = []
set_first p (q ∷ paragraphs) = p ∷ paragraphs

-- The loop of `ml`: line 0 goes to the paragraph that is there, the others are added.
unfoldable pub ml_loop : ℕ → List Line → List Paragraph → List Paragraph
ml_loop i [] paragraphs = paragraphs
ml_loop zero (x ∷ lines) paragraphs = ml_loop 1 lines (set_first (write_line x) paragraphs)
ml_loop (suc i) (x ∷ lines) paragraphs =
    ml_loop (suc (suc i)) lines (paragraphs ++ (write_line x ∷ []))

-- A new text box has one paragraph.
unfoldable pub ml : ℕ → ℕ → ℕ → ℕ → List Line → List Item
unfolding ml_loop
ml l t w h lines = text_box (area l t w h) none (ml_loop 0 lines (unset ∷ [])) ∷ []

abbrev pub flatten : List (List Item) → List Item
flatten [] = []
flatten (items ∷ rest) = items ++ flatten rest

unfoldable pub hdr : String → String → List Item
unfolding box tx
hdr title sub = flatten (
    box 0 0 sw 100 (record unstyled { fill = some red })
    ∷ tx 800 280 10000 500 title (record plain { sz = 30; b = true })
    ∷ (if sub == "" then [] else tx 800 780 10000 350 sub (record plain { sz = 13; c = mdgray }))
    ∷ box 800 1180 (sw - 1600) 12 (record unstyled { fill = some ltgray })
    ∷ [])

abbrev digit : ℕ → List String → String
digit n [] = ""
digit zero (d ∷ ds) = d
digit (suc n) (d ∷ ds) = digit n ds

abbrev digit_text : ℕ → String
digit_text n = digit n ("0" ∷ "1" ∷ "2" ∷ "3" ∷ "4" ∷ "5" ∷ "6" ∷ "7" ∷ "8" ∷ "9" ∷ [])

-- Fuel `n` is enough for `n`, which has at most `n` digits, or one.
abbrev digits : ℕ → ℕ → String
digits zero n = digit_text n
digits (suc f) n =
    let rest = digits f (n / 10) in if ltb n 10 then digit_text n else rest ⊕ digit_text (n % 10)

abbrev pub str : ℕ → String
str n = digits n n

unfoldable pub ftr : ℕ → List Item
unfolding tx
ftr n = flatten (
    tx 800 (sh - 380) 3000 250 "TinyTelegram  |  CS6650" (record plain { sz = 9; c = mdgray })
    ∷ tx (sw - 1500) (sh - 380) 1000 250 (str n ⊕ ("/" ⊕ str total_slides))
        (record plain { sz = 9; c = mdgray; al = right })
    ∷ [])

-- A width or a height of 0 counts as none.
abbrev given : Option ℕ → Option ℕ
given none = none
given (some zero) = none
given (some (suc n)) = some (suc n)

unfoldable pub addimg : Image → ℕ → ℕ → Option ℕ → Option ℕ → List Item
addimg buf l t w h = picture buf l t (given w) (given h) ∷ []
