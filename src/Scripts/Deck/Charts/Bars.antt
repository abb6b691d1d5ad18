-- ===== src/Scripts/Deck/Charts/Bars.antt =====
-- The two bar charts of scripts/generate_ppt.py.
use Prim.Native.String.{◌++◌ as ◌⊕◌}
use tinytelegram.Base.{ℕ, suc, ◌*◌, ◌+◌, ◌/◌, ◌%◌, String, List, [], ◌∷◌, ◌++◌}
use tinytelegram.Scripts.Figure.{
  text, int, ints, dec, decs, neg, flag, texts, mid_bar, kw, pair, call,
}
use tinytelegram.Scripts.Deck.Pptx.{Image, str}
use tinytelegram.Scripts.Deck.Charts.{m_red, m_dkred, m_dk, tobuf}

-- for bar, v in zip(bars, mem): the value over each bar
unfoldable pub mem_texts : ℕ → List ℕ → Image
mem_texts i [] = []
mem_texts i (v ∷ vs) =
    call "ax" "text" (
      mid_bar "x" i
      ∷ dec (v * 10 + 15) 1
      ∷ text (str v ⊕ " MB")
      ∷ kw "ha" (text "center")
      ∷ kw "va" (text "bottom")
      ∷ kw "fontweight" (text "bold")
      ∷ kw "fontsize" (int 15)
      ∷ kw "color" (text "#333")
      ∷ [])
    ∷ mem_texts (suc i) vs

-- f'{v:.2f} ms', of hundredths
unfoldable pub fmt_ms : ℕ → String
fmt_ms v = str (v / 100) ⊕ ("." ⊕ (str (v / 10 % 10) ⊕ (str (v % 10) ⊕ " ms")))

-- for bar, v in zip(bars, lat): the value beside each bar, in hundredths
unfoldable pub lat_texts : ℕ → List ℕ → Image
lat_texts i [] = []
lat_texts i (v ∷ vs) =
    call "ax" "text" (
      dec (v + 10) 2
      ∷ mid_bar "y" i
      ∷ text (fmt_ms v)
      ∷ kw "va" (text "center")
      ∷ kw "fontweight" (text "bold")
      ∷ kw "fontsize" (int 15)
      ∷ kw "color" (text "#333")
      ∷ [])
    ∷ lat_texts (suc i) vs

unfoldable pub make_exp1 : Image
unfolding tobuf mem_texts
make_exp1 = tobuf (
    (call "plt" "subplots" (kw "figsize" (pair (dec 55 1) (dec 42 1)) ∷ [])
      ∷ call "fig.patch" "set_facecolor" (text "white" ∷ [])
      ∷ call "ax" "bar" (
          texts
            ("1 Gateway\n(2000 conns)" ∷ "3 Gateways\n(~667 each)" ∷ "5 Gateways\n(~400 each)" ∷ [])
          ∷ ints (55 ∷ 17 ∷ 10 ∷ [])
          ∷ kw "color" (texts (m_red ∷ m_dkred ∷ m_dk ∷ []))
          ∷ kw "width" (dec 55 2)
          ∷ kw "edgecolor" (text "white")
          ∷ kw "linewidth" (int 2)
          ∷ [])
      ∷ [])
    ++ mem_texts 0 (55 ∷ 17 ∷ 10 ∷ [])
    ++ (call "ax" "set_ylabel" (
          text "Avg Heap per Gateway (MB)"
          ∷ kw "fontsize" (int 12)
          ∷ kw "fontweight" (text "bold")
          ∷ [])
        ∷ call "ax" "set_title" (
            text "Memory per Gateway at 2,000 Total Connections"
            ∷ kw "fontsize" (int 13)
            ∷ kw "fontweight" (text "bold")
            ∷ kw "pad" (int 15)
            ∷ kw "color" (text "#222")
            ∷ [])
        ∷ call "ax" "set_ylim" (int 0 ∷ int 68 ∷ [])
        ∷ call "ax.spines['bottom']" "set_color" (text "#ccc" ∷ [])
        ∷ call "ax.spines['left']" "set_color" (text "#ccc" ∷ [])
        ∷ call "ax.yaxis" "grid" (flag "True" ∷ kw "alpha" (dec 25 2) ∷ [])
        ∷ call "ax" "set_axisbelow" (flag "True" ∷ [])
        ∷ call "fig" "tight_layout" []
        ∷ []))

unfoldable pub make_exp2 : Image
unfolding tobuf lat_texts
make_exp2 = tobuf (
    (call "plt" "subplots" (kw "figsize" (pair (dec 55 1) (dec 36 1)) ∷ [])
      ∷ call "fig.patch" "set_facecolor" (text "white" ∷ [])
      ∷ call "ax" "barh" (
          texts ("Redis INCR\n(PTS Allocation)" ∷ "Postgres INSERT\n(Message Store)" ∷ [])
          ∷ decs ((69, 2) ∷ (310, 2) ∷ [])
          ∷ kw "color" (texts (m_red ∷ m_dk ∷ []))
          ∷ kw "height" (dec 45 2)
          ∷ kw "edgecolor" (text "white")
          ∷ kw "linewidth" (int 2)
          ∷ [])
      ∷ [])
    ++ lat_texts 0 (69 ∷ 310 ∷ [])
    ++ (call "ax" "text" (
          dec 20 1
          ∷ neg (dec 55 2)
          ∷ text "4.5× difference"
          ∷ kw "fontsize" (int 13)
          ∷ kw "fontweight" (text "bold")
          ∷ kw "color" (text m_red)
          ∷ kw "ha" (text "center")
          ∷ kw "bbox" (
              pair (kw "boxstyle" (text "round,pad=0.3")) (
                pair (kw "facecolor" (text "#FFF0F0"))
                  (pair (kw "edgecolor" (text m_red)) (kw "lw" (dec 15 1)))))
          ∷ [])
        ∷ call "ax" "set_xlabel" (
            text "Average Latency (ms)"
            ∷ kw "fontsize" (int 12)
            ∷ kw "fontweight" (text "bold")
            ∷ [])
        ∷ call "ax" "set_title" (
            text "Write Path Latency Comparison"
            ∷ kw "fontsize" (int 13)
            ∷ kw "fontweight" (text "bold")
            ∷ kw "pad" (int 15)
            ∷ kw "color" (text "#222")
            ∷ [])
        ∷ call "ax" "set_xlim" (int 0 ∷ dec 45 1 ∷ [])
        ∷ call "ax.spines['bottom']" "set_color" (text "#ccc" ∷ [])
        ∷ call "ax.spines['left']" "set_color" (text "#ccc" ∷ [])
        ∷ call "ax.xaxis" "grid" (flag "True" ∷ kw "alpha" (dec 25 2) ∷ [])
        ∷ call "ax" "set_axisbelow" (flag "True" ∷ [])
        ∷ call "fig" "tight_layout" []
        ∷ []))
