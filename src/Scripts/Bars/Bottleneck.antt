-- ===== src/Scripts/Bars/Bottleneck.antt =====
-- scripts/experiment2/plot_bottleneck.py: the share of Postgres in the time of a write.
use Prim.Native.String.{◌++◌ as ◌⊕◌}
use tinytelegram.Base.{ℕ, suc, String, List, [], ◌∷◌, ◌++◌}
use tinytelegram.Scripts.Python.{Floats}
use tinytelegram.Scripts.Figure.{
  text, int, dec, flag, num, nums, texts, kw, pair, Call, call, label, color,
}

abbrev metrics : List String
metrics = "avg" ∷ "p50\n(median)" ∷ "p90" ∷ "p95" ∷ "max" ∷ []

module _ (F : Floats) where
  open F use {Num, decimal, add, minus, fmt}

  abbrev redis_vals : List Num
  redis_vals = decimal 69 2 ∷ decimal 41 2 ∷ decimal 91 2 ∷ decimal 143 2 ∷ decimal 5719 2 ∷ []

  abbrev full_vals : List Num
  full_vals = decimal 310 2 ∷ decimal 117 2 ∷ decimal 641 2 ∷ decimal 951 2 ∷ decimal 14156 2 ∷ []

  -- [f - r for f, r in zip(full_vals, redis_vals)]
  unfoldable pub overhead : List Num → List Num → List Num
  overhead [] rs = []
  overhead (f ∷ fs) [] = []
  overhead (f ∷ fs) (r ∷ rs) = minus f r ∷ overhead fs rs

  -- ax1.text over each bar, at the index of the bar
  unfoldable pub value_texts : ℕ → List Num → List (Call Num)
  value_texts i [] = []
  value_texts i (p ∷ ps) =
      call "ax1" "text" (
        int i
        ∷ num (add p (decimal 1 0))
        ∷ text (fmt 1 p ⊕ "ms")
        ∷ kw "ha" (text "center")
        ∷ kw "va" (text "bottom")
        ∷ kw "fontsize" (int 9)
        ∷ kw "fontweight" (text "bold")
        ∷ [])
      ∷ value_texts (suc i) ps

  -- set_xticks, set_xticklabels, set_ylabel, set_title, legend, grid
  abbrev frame : String → String → List (Call Num)
  frame ax title =
      call ax "set_xticks" (flag "x" ∷ [])
      ∷ call ax "set_xticklabels" (texts metrics ∷ [])
      ∷ call ax "set_ylabel" (text "Latency (ms)" ∷ [])
      ∷ call ax "set_title" (text title ∷ [])
      ∷ call ax "legend" []
      ∷ call ax "grid" (kw "axis" (text "y") ∷ kw "alpha" (dec 3 1) ∷ [])
      ∷ []

  unfoldable pub breakdown : List (Call Num)
  unfolding overhead value_texts
  breakdown =
      call "ax1" "bar"
        (flag "x" ∷ nums redis_vals ∷ dec 3 1 ∷ label "Redis INCR" ∷ color "#2ecc71" ∷ [])
      ∷ call "ax1" "bar" (
          flag "x"
          ∷ nums (overhead full_vals redis_vals)
          ∷ dec 3 1
          ∷ kw "bottom" (nums redis_vals)
          ∷ label "Postgres INSERT overhead"
          ∷ color "#e74c3c"
          ∷ [])
      ∷ (value_texts 0 full_vals ++ frame "ax1" "Write Path Breakdown: Redis vs Postgres")

  unfoldable pub side_by_side : List (Call Num)
  side_by_side =
      call "ax2" "bar"
        (flag "x - width/2" ∷ nums redis_vals ∷ dec 3 1 ∷ label "Redis only" ∷ color "#2ecc71" ∷ [])
      ∷ call "ax2" "bar" (
          flag "x + width/2"
          ∷ nums full_vals
          ∷ dec 3 1
          ∷ label "Full write (Redis + Postgres)"
          ∷ color "#3498db"
          ∷ [])
      ∷ frame "ax2" "Redis Only vs Full Write Path"

  unfoldable pub plot_bottleneck : List (Call Num)
  unfolding breakdown side_by_side
  plot_bottleneck =
      call "plt" "subplots" (int 1 ∷ int 2 ∷ kw "figsize" (pair (int 14) (int 6)) ∷ [])
      ∷ call "fig" "suptitle" (
          text "TinyTelegram Experiment 2: Redis INCR vs Postgres Write Bottleneck Analysis"
          ∷ kw "fontsize" (int 13)
          ∷ kw "fontweight" (text "bold")
          ∷ [])
      ∷ (breakdown
          ++ (side_by_side
              ++ (call "plt" "tight_layout" []
                  ∷ call "plt" "savefig" (
                      text "scripts/bottleneck_results.png"
                      ∷ kw "dpi" (int 150)
                      ∷ kw "bbox_inches" (text "tight")
                      ∷ [])
                  ∷ call "plt" "close" []
                  ∷ [])))
