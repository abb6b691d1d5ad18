-- ===== src/Scripts/TimeSeries/Draw.antt =====
-- The figure of plot_timeseries.py.
use Prim.Native.String.{◌++◌ as ◌⊕◌}
use tinytelegram.Base.{ℕ, zero, suc, String, Option, List, [], ◌∷◌, ◌++◌, map}
use tinytelegram.Base.Exec.{Result, ok, err}
use tinytelegram.Scripts.Python.{Floats, Json, Line}
use tinytelegram.Scripts.Figure.{
  text, int, dec, flag, num, nums, times, texts, decs, kw, pair, Call, call, label, color,
}
use tinytelegram.Scripts.Points.{as_number}
use tinytelegram.Scripts.Consistency.Summary.{largest}
use tinytelegram.Scripts.TimeSeries.Load.{read_lines, earliest, latest, relative_times}
use tinytelegram.Scripts.TimeSeries.Bins.{window_count, center, window}

-- The statistics of the windows that are not empty.
pub record Binned (Num : Type 0) : Type 0 where
  pub p50_bins : List Num
  pub p95_bins : List Num
  pub p99_bins : List Num
  pub bin_centers : List ℕ

-- `percentile` is np.percentile.
module _ (F : Floats) (percentile : List F.Num → ℕ → F.Num) where
  open F use {Num, decimal, tenths, fmt}

  abbrev append_window : Binned Num → ℕ → List Num → Binned Num
  append_window b i [] = b
  append_window b i (d ∷ ds) = record {
    p50_bins = b.p50_bins ++ (percentile (d ∷ ds) 50 ∷ []);
    p95_bins = b.p95_bins ++ (percentile (d ∷ ds) 95 ∷ []);
    p99_bins = b.p99_bins ++ (percentile (d ∷ ds) 99 ∷ []);
    bin_centers = b.bin_centers ++ (center i ∷ []);
  }

  -- What `np.percentile` makes of a window: it raises on a value that is no number.
  unfoldable pub numbers : List (Json Num) → Result (List Num)
  numbers [] = ok []
  numbers (v ∷ vs) = elim (as_number v) [
    | err x ↦ err x
    | ok y ↦ elim (numbers vs) [ err x ↦ err x | ok ys ↦ ok (y ∷ ys) ]
  ]

  -- for i in range(len(bins) - 1): ..., with the number of rounds left
  unfoldable pub bin_samples : ℕ → ℕ → List (Json Num) → List ℕ → Binned Num → Result (Binned Num)
  unfolding numbers
  bin_samples zero i durations rel_times b = ok b
  bin_samples (suc rounds) i durations rel_times b = elim (numbers (window i durations rel_times)) [
    | err x ↦ err x
    | ok ds ↦ bin_samples rounds (suc i) durations rel_times (append_window b i ds)
  ]

  abbrev curve : List ℕ → List Num → String → String → Call Num
  curve centers ys name shade =
      call "ax1" "plot"
        (times centers ∷ nums ys ∷ label name ∷ color shade ∷ kw "linewidth" (int 2) ∷ [])

  abbrev stage_line : ℕ → Call Num
  stage_line x =
      call "ax1" "axvline"
        (kw "x" (int x) ∷ color "gray" ∷ kw "linestyle" (text ":") ∷ kw "alpha" (dec 7 1) ∷ [])

  abbrev stage_name : ℕ → Num → String → Call Num
  stage_name x top name = call "ax1" "text" (
      int x
      ∷ num (tenths top 9)
      ∷ text name
      ∷ kw "ha" (text "center")
      ∷ color "gray"
      ∷ kw "fontsize" (int 9)
      ∷ [])

  abbrev objective : String → ℕ → Call Num
  objective ax alpha = call ax "axhline" (
      kw "y" (int 2000)
      ∷ color "red"
      ∷ kw "linestyle" (text "--")
      ∷ kw "alpha" (dec alpha 1)
      ∷ label "SLO (2000ms)"
      ∷ [])

  -- The upper plot; `top` is max(p99_bins).
  unfoldable pub latency_calls : Binned Num → Num → List (Call Num)
  latency_calls b top =
      curve b.bin_centers b.p50_bins "p50" "#2ecc71"
      ∷ curve b.bin_centers b.p95_bins "p95" "#f39c12"
      ∷ curve b.bin_centers b.p99_bins "p99" "#e74c3c"
      ∷ objective "ax1" 5
      ∷ stage_line 30
      ∷ stage_line 90
      ∷ stage_line 150
      ∷ stage_name 15 top "10 VUs"
      ∷ stage_name 60 top "50 VUs"
      ∷ stage_name 120 top "100 VUs"
      ∷ call "ax1" "set_xlabel" (text "Time (seconds)" ∷ [])
      ∷ call "ax1" "set_ylabel" (text "Latency (ms)" ∷ [])
      ∷ call "ax1" "set_title" (text "Request Latency Over Time (p50 / p95 / p99)" ∷ [])
      ∷ call "ax1" "legend" []
      ∷ call "ax1" "grid" (kw "alpha" (dec 3 1) ∷ [])
      ∷ []

  abbrev summary_values : List (ℕ × ℕ)
  summary_values = (152, 2) ∷ (2166, 2) ∷ (573, 1) ∷ (23611, 2) ∷ (14399, 1) ∷ []

  -- ax2.text over each bar
  abbrev bar_text : ℕ × ℕ → Call Num
  bar_text (mantissa, digits) = call "ax2" "text" (
      flag "bar.get_x() + bar.get_width()/2"
      ∷ flag "bar.get_height() + 10"
      ∷ text (fmt 1 (decimal mantissa digits) ⊕ "ms")
      ∷ kw "ha" (text "center")
      ∷ kw "va" (text "bottom")
      ∷ kw "fontweight" (text "bold")
      ∷ [])

  -- The lower plot, of fixed values.
  unfoldable pub distribution_calls : List (Call Num)
  distribution_calls =
      call "ax2" "bar" (
        texts ("p50" ∷ "p90" ∷ "p95" ∷ "p99" ∷ "max" ∷ [])
        ∷ decs summary_values
        ∷ kw "color" (texts ("#2ecc71" ∷ "#3498db" ∷ "#f39c12" ∷ "#e74c3c" ∷ "#8e44ad" ∷ []))
        ∷ kw "width" (dec 5 1)
        ∷ [])
      ∷ objective "ax2" 7
      ∷ (map bar_text summary_values
          ++ (call "ax2" "set_ylabel" (text "Latency (ms)" ∷ [])
              ∷ call "ax2" "set_title" (
                  text "Overall Latency Distribution (100 VUs, 69,070 requests, 0% error rate)"
                  ∷ [])
              ∷ call "ax2" "legend" []
              ∷ call "ax2" "grid" (kw "axis" (text "y") ∷ kw "alpha" (dec 3 1) ∷ [])
              ∷ []))

  abbrev pub opening : List (Call Num)
  opening =
      call "plt" "subplots" (int 2 ∷ int 1 ∷ kw "figsize" (pair (int 14) (int 10)) ∷ [])
      ∷ call "fig" "suptitle" (
          text "TinyTelegram Experiment 2: Message Write Path Latency Under Load"
          ∷ kw "fontsize" (int 13)
          ∷ kw "fontweight" (text "bold")
          ∷ [])
      ∷ []

  abbrev pub closing : List (Call Num)
  closing =
      call "plt" "tight_layout" []
      ∷ call "plt" "savefig" (
          text "scripts/experiment2_results.png"
          ∷ kw "dpi" (int 150)
          ∷ kw "bbox_inches" (text "tight")
          ∷ [])
      ∷ call "plt" "close" []
      ∷ []

  -- `max(p99_bins)` raises where no window holds a sample.
  unfoldable pub draw : Binned Num → List Num → Result (List (Call Num))
  unfolding latency_calls distribution_calls
  draw b [] = err "ValueError"
  draw b (p ∷ ps) =
      ok (opening ++ (latency_calls b (largest F p ps) ++ (distribution_calls ++ closing)))

  abbrev no_bins : Binned Num
  no_bins = record { p50_bins = []; p95_bins = []; p99_bins = []; bin_centers = [] }

  unfoldable pub bin_all : List (Json Num) → List ℕ → Result (Binned Num)
  unfolding bin_samples
  bin_all durations [] = ok no_bins
  bin_all durations (r ∷ rs) = bin_samples (window_count (latest r rs)) 0 durations (r ∷ rs) no_bins

  -- From the two lists on; without a sample the script says so and ends with no figure.
  unfoldable pub plot_samples : List ℕ → List (Json Num) → Result (List (Call Num))
  unfolding bin_all draw
  plot_samples [] durations = ok []
  plot_samples (t ∷ ts) durations =
      elim (bin_all durations (relative_times (earliest t ts) (t ∷ ts))) [
        | err x ↦ err x
        | ok binned ↦ draw binned binned.p99_bins
      ]

  -- The whole script.
  unfoldable pub plot_timeseries : (String → Option ℕ) → List (Line Num) → Result (List (Call Num))
  unfolding plot_samples
  plot_timeseries iso lines =
      let s = read_lines iso (record { timestamps = []; durations = [] }) lines in
      plot_samples s.timestamps s.durations
