-- ===== src/Scripts/Deck/Charts/Lines.antt =====
-- The failover chart of scripts/generate_ppt.py.
use tinytelegram.Base.{[], ◌∷◌}
use tinytelegram.Scripts.Figure.{text, int, ints, dec, neg, flag, kw, pair, call}
use tinytelegram.Scripts.Deck.Pptx.{Image}
use tinytelegram.Scripts.Deck.Charts.{m_red, m_dk, m_md, tobuf}

unfoldable pub make_exp3 : Image
unfolding tobuf
make_exp3 = tobuf (
    (call "plt" "subplots" (kw "figsize" (pair (int 7) (dec 42 1)) ∷ [])
      ∷ call "fig.patch" "set_facecolor" (text "white" ∷ [])
      ∷ call "ax" "plot" (
          ints (0 ∷ 3 ∷ 10 ∷ 20 ∷ 28 ∷ 30 ∷ 31 ∷ 33 ∷ 40 ∷ 50 ∷ 60 ∷ 80 ∷ 100 ∷ 130 ∷ 155 ∷ [])
          ∷ ints (0 ∷ 22 ∷ 22 ∷ 22 ∷ 22 ∷ 22 ∷ 0 ∷ 0 ∷ 0 ∷ 0 ∷ 0 ∷ 0 ∷ 0 ∷ 0 ∷ 0 ∷ [])
          ∷ text "o-"
          ∷ kw "color" (text m_red)
          ∷ kw "lw" (dec 25 1)
          ∷ kw "ms" (int 4)
          ∷ kw "label" (text "Gateway 1")
          ∷ kw "zorder" (int 3)
          ∷ [])
      ∷ call "ax" "plot" (
          ints (0 ∷ 3 ∷ 10 ∷ 20 ∷ 28 ∷ 30 ∷ 31 ∷ 33 ∷ 40 ∷ 50 ∷ 60 ∷ 80 ∷ 100 ∷ 130 ∷ 155 ∷ [])
          ∷ ints (16 ∷ 16 ∷ 16 ∷ 16 ∷ 16 ∷ 16 ∷ 16 ∷ 34 ∷ 34 ∷ 34 ∷ 18 ∷ 18 ∷ 18 ∷ 18 ∷ 18 ∷ [])
          ∷ text "s-"
          ∷ kw "color" (text m_dk)
          ∷ kw "lw" (int 2)
          ∷ kw "ms" (int 4)
          ∷ kw "label" (text "Gateway 2")
          ∷ kw "zorder" (int 3)
          ∷ [])
      ∷ call "ax" "plot" (
          ints (0 ∷ 3 ∷ 10 ∷ 20 ∷ 28 ∷ 30 ∷ 31 ∷ 33 ∷ 40 ∷ 50 ∷ 60 ∷ 80 ∷ 100 ∷ 130 ∷ 155 ∷ [])
          ∷ ints (12 ∷ 12 ∷ 12 ∷ 12 ∷ 12 ∷ 12 ∷ 12 ∷ 26 ∷ 26 ∷ 26 ∷ 14 ∷ 14 ∷ 14 ∷ 14 ∷ 14 ∷ [])
          ∷ text "^-"
          ∷ kw "color" (text m_md)
          ∷ kw "lw" (int 2)
          ∷ kw "ms" (int 4)
          ∷ kw "label" (text "Gateway 3")
          ∷ kw "zorder" (int 3)
          ∷ [])
      ∷ call "ax" "axvline" (
          kw "x" (int 31)
          ∷ kw "color" (text m_red)
          ∷ kw "lw" (int 2)
          ∷ kw "ls" (text "--")
          ∷ kw "alpha" (dec 6 1)
          ∷ kw "zorder" (int 1)
          ∷ [])
      ∷ call "ax" "axvspan" (
          int 31
          ∷ int 33
          ∷ kw "alpha" (dec 8 2)
          ∷ kw "color" (text m_red)
          ∷ kw "zorder" (int 0)
          ∷ [])
      ∷ call "ax" "annotate" (
          text "GW1 killed"
          ∷ kw "xy" (pair (int 31) (int 1))
          ∷ kw "xytext" (pair (int 45) (int 5))
          ∷ kw "fontsize" (int 11)
          ∷ kw "fontweight" (text "bold")
          ∷ kw "color" (text m_red)
          ∷ kw "arrowprops" (
              pair (kw "arrowstyle" (text "->"))
                (pair (kw "color" (text m_red)) (kw "lw" (dec 15 1))))
          ∷ [])
      ∷ call "ax" "annotate" (
          text "Connections\nredistributed"
          ∷ kw "xy" (pair (int 33) (int 34))
          ∷ kw "xytext" (pair (int 55) (int 37))
          ∷ kw "fontsize" (dec 95 1)
          ∷ kw "color" (text m_dk)
          ∷ kw "arrowprops" (
              pair (kw "arrowstyle" (text "->"))
                (pair (kw "color" (text "#999")) (kw "lw" (dec 12 1))))
          ∷ [])
      ∷ call "ax" "set_xlabel"
          (text "Time (seconds)" ∷ kw "fontsize" (int 12) ∷ kw "fontweight" (text "bold") ∷ [])
      ∷ call "ax" "set_ylabel"
          (text "Active Connections" ∷ kw "fontsize" (int 12) ∷ kw "fontweight" (text "bold") ∷ [])
      ∷ call "ax" "set_title" (
          text "Gateway Failover & Connection Redistribution"
          ∷ kw "fontsize" (int 13)
          ∷ kw "fontweight" (text "bold")
          ∷ kw "pad" (int 15)
          ∷ kw "color" (text "#222")
          ∷ [])
      ∷ call "ax" "legend" (
          kw "loc" (text "upper right")
          ∷ kw "fontsize" (int 10)
          ∷ kw "framealpha" (dec 95 2)
          ∷ kw "edgecolor" (text "#ddd")
          ∷ [])
      ∷ call "ax" "set_ylim" (neg (int 2) ∷ int 42 ∷ [])
      ∷ call "ax" "set_xlim" (neg (int 5) ∷ int 165 ∷ [])
      ∷ call "ax.spines['bottom']" "set_color" (text "#ccc" ∷ [])
      ∷ call "ax.spines['left']" "set_color" (text "#ccc" ∷ [])
      ∷ call "ax.yaxis" "grid" (flag "True" ∷ kw "alpha" (dec 25 2) ∷ [])
      ∷ call "ax" "set_axisbelow" (flag "True" ∷ [])
      ∷ call "fig" "tight_layout" []
      ∷ []))
