-- ===== src/Scripts/Bars/LoadTest.antt =====
-- scripts/experiment2/plot_results.py: latencies and throughput by load stage.
use tinytelegram.Base.{ℕ, String, List, [], ◌∷◌, ◌++◌}
use tinytelegram.Scripts.Figure.{
  text, int, dec, flag, texts, decs, kw, pair, Call, call, label, color,
}

abbrev stages : List String
stages =
    "10 VUs\n(0-30s)" ∷ "50 VUs\n(30-90s)" ∷ "100 VUs\n(90-150s)" ∷ "Ramp down\n(150-180s)" ∷ []

-- The same value for each of the four stages.
abbrev each_stage : ℕ × ℕ → List (ℕ × ℕ)
each_stage v = v ∷ v ∷ v ∷ v ∷ []

abbrev vus : List (ℕ × ℕ)
vus = (10, 0) ∷ (50, 0) ∷ (100, 0) ∷ (0, 0) ∷ []

abbrev throughput : List (ℕ × ℕ)
throughput = each_stage (411, 0)

module _ {Num : Type 0} where
  -- `at` is the position of the bars beside the ticks, in the source's words.
  abbrev bars : String → ℕ × ℕ → String → String → Call Num
  bars at v name shade =
      call "ax1" "bar" (flag at ∷ decs (each_stage v) ∷ dec 2 1 ∷ label name ∷ color shade ∷ [])

  unfoldable pub latency_chart : List (Call Num)
  latency_chart =
      bars "x - 1.5*width" (112, 2) "p50" "#2ecc71"
      ∷ bars "x - 0.5*width" (957, 2) "p90" "#3498db"
      ∷ bars "x + 0.5*width" (1988, 2) "p95" "#f39c12"
      ∷ bars "x + 1.5*width" (959, 1) "p99" "#e74c3c"
      ∷ call "ax1" "set_xlabel" (text "Load Stage" ∷ [])
      ∷ call "ax1" "set_ylabel" (text "Latency (ms)" ∷ [])
      ∷ call "ax1" "set_title" (text "Message Latency by Load Stage" ∷ [])
      ∷ call "ax1" "set_xticks" (flag "x" ∷ [])
      ∷ call "ax1" "set_xticklabels" (texts stages ∷ [])
      ∷ call "ax1" "legend" []
      ∷ call "ax1" "axhline" (
          kw "y" (int 2000)
          ∷ color "red"
          ∷ kw "linestyle" (text "--")
          ∷ label "p99 threshold (2000ms)"
          ∷ [])
      ∷ call "ax1" "grid" (kw "axis" (text "y") ∷ kw "alpha" (dec 3 1) ∷ [])
      ∷ []

  unfoldable pub throughput_chart : List (Call Num)
  throughput_chart =
      call "ax2" "plot" (
        decs vus
        ∷ decs throughput
        ∷ text "o-"
        ∷ color "#3498db"
        ∷ kw "linewidth" (int 2)
        ∷ kw "markersize" (int 8)
        ∷ [])
      ∷ call "ax2" "fill_between"
          (decs vus ∷ decs throughput ∷ kw "alpha" (dec 2 1) ∷ color "#3498db" ∷ [])
      ∷ call "ax2" "set_xlabel" (text "Concurrent Users (VUs)" ∷ [])
      ∷ call "ax2" "set_ylabel" (text "Throughput (req/s)" ∷ [])
      ∷ call "ax2" "set_title" (text "Throughput vs Concurrent Users" ∷ [])
      ∷ call "ax2" "grid" (kw "alpha" (dec 3 1) ∷ [])
      ∷ call "ax2" "annotate" (
          text "411 req/s"
          ∷ kw "xy" (pair (int 50) (int 411))
          ∷ kw "xytext" (pair (int 60) (int 380))
          ∷ kw "arrowprops" (pair (kw "arrowstyle" (text "->")) (color "black"))
          ∷ [])
      ∷ []

  unfoldable pub plot_load_test : List (Call Num)
  unfolding latency_chart throughput_chart
  plot_load_test =
      call "plt" "subplots" (int 1 ∷ int 2 ∷ kw "figsize" (pair (int 14) (int 6)) ∷ [])
      ∷ call "fig" "suptitle" (
          text "TinyTelegram Message Service Load Test Results"
          ∷ kw "fontsize" (int 14)
          ∷ kw "fontweight" (text "bold")
          ∷ [])
      ∷ (latency_chart
          ++ (throughput_chart
              ++ (call "plt" "tight_layout" []
                  ∷ call "plt" "savefig" (
                      text "scripts/load_test_results.png"
                      ∷ kw "dpi" (int 150)
                      ∷ kw "bbox_inches" (text "tight")
                      ∷ [])
                  ∷ call "plt" "show" []
                  ∷ [])))
