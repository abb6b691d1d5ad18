-- ===== src/Scripts/Deck/Charts.antt =====
-- The charts of scripts/generate_ppt.py: their colours, and the helpers that draw them. The nested
-- functions of `make_arch` stand here too.
pub mod Arch
pub mod Bars
pub mod Lines
use tinytelegram.Base.{
  ℕ, ◌+◌, ◌-◌, ◌/◌, ◌<◌, String, Bool, true, false, List, [], ◌∷◌, ◌++◌, ◌==◌, ltb, if◌then◌else◌,
}
use tinytelegram.Scripts.Figure.{text, int, dec, neg, kw, pair, Arg, Call, call}
use tinytelegram.Scripts.Deck.Pptx.{Image}

-- The palette `M`.
abbrev pub m_red : String
m_red = "#CC0000"

abbrev pub m_dkred : String
m_dkred = "#8B0000"

abbrev pub m_blk : String
m_blk = "#1a1a1a"

abbrev pub m_dk : String
m_dk = "#333333"

abbrev pub m_md : String
m_md = "#888888"

unfoldable pub tobuf : Image → Image
tobuf fig =
    fig
    ++ (call "fig" "savefig" (
          text "b"
          ∷ kw "format" (text "png")
          ∷ kw "dpi" (int 200)
          ∷ kw "bbox_inches" (text "tight")
          ∷ kw "facecolor" (text "white")
          ∷ kw "edgecolor" (text "none")
          ∷ kw "pad_inches" (dec 15 2)
          ∷ [])
        ∷ call "plt" "close" (text "fig" ∷ [])
        ∷ call "b" "seek" (int 0 ∷ [])
        ∷ [])

abbrev pub concat : List Image → Image
concat [] = []
concat (calls ∷ rest) = calls ++ concat rest

-- a - b, in thousandths
abbrev minus : ℕ → ℕ → Arg (Unit {0})
minus a b = if ltb a b then neg (dec (b - a) 3) else dec (a - b) 3

-- A labelled box around its middle, in thousandths, with a text under it if there is one.
unfoldable pub bx : ℕ → ℕ → ℕ → ℕ → String → String → String → Image
bx cx cy w h color label sub =
    (call "FancyBboxPatch" "new" (
        pair (minus cx (w / 2)) (minus cy (h / 2))
        ∷ dec w 3
        ∷ dec h 3
        ∷ kw "boxstyle" (text "round,pad=0.08")
        ∷ kw "facecolor" (text color)
        ∷ kw "edgecolor" (text "#444")
        ∷ kw "lw" (dec 13 1)
        ∷ kw "zorder" (int 3)
        ∷ [])
      ∷ call "ax" "add_patch" (text "p" ∷ [])
      ∷ call "ax" "text" (
          dec cx 3
          ∷ dec (cy + 20) 3
          ∷ text label
          ∷ kw "ha" (text "center")
          ∷ kw "va" (text "center")
          ∷ kw "fontsize" (dec 105 1)
          ∷ kw "fontweight" (text "bold")
          ∷ kw "color" (text "white")
          ∷ kw "zorder" (int 4)
          ∷ [])
      ∷ [])
    ++ (if sub == ""
        then []
        else call "ax" "text" (
            dec cx 3
            ∷ minus cy (h / 2 + 180)
            ∷ text sub
            ∷ kw "ha" (text "center")
            ∷ kw "va" (text "top")
            ∷ kw "fontsize" (int 8)
            ∷ kw "color" (text "#777")
            ∷ kw "style" (text "italic")
            ∷ kw "zorder" (int 4)
            ∷ [])
          ∷ [])

-- An arrow between two points, in thousandths; the line width is in tenths.
unfoldable pub ar : ℕ → ℕ → ℕ → ℕ → Bool → String → ℕ → Image
ar x1 y1 x2 y2 bi clr lw =
    call "FancyArrowPatch" "new" (
      pair (dec x1 3) (dec y1 3)
      ∷ pair (dec x2 3) (dec y2 3)
      ∷ kw "arrowstyle" (text (if bi then "<|-|>" else "-|>"))
      ∷ kw "mutation_scale" (int 14)
      ∷ kw "color" (text clr)
      ∷ kw "lw" (dec lw 1)
      ∷ kw "zorder" (int 2)
      ∷ [])
    ∷ call "ax" "add_patch" (text "a" ∷ [])
    ∷ []
