-- ===== src/Scripts/Consistency/Draw.antt =====
-- The figure that `plot_consistency_results` draws.
use Prim.Native.String.{◌++◌ as ◌⊕◌}
use tinytelegram.Base.{ℕ, String, Option, none, some, List, [], ◌∷◌, ◌++◌, map, ◌==◌, if◌then◌else◌}
use tinytelegram.Base.Exec.{Result, ok, err}
use tinytelegram.Scripts.Python.{Floats, Line, load_lines}
use tinytelegram.Scripts.Figure.{
  Cell, Arg, text, cells, int, dec, flag, num, nums, times, kw, pair, Call, call, label, color,
  axis_titles, legend_and_grid,
}
use tinytelegram.Scripts.Consistency.Summary.{
  Findings, read_findings, mean, summary_text, gap_mean_label, gap_title,
}

-- A timestamp as the file has it: a number of seconds that pandas can hold as a time, or another text.
pub data Stamp : Type 0 where
  seconds : ℕ → Stamp
  other : String → Stamp

-- A row of consistency_metrics.csv, below the header that run_consistency.sh writes, with a `Stamp` when
-- it is read and a number when that is converted.
pub record MetricRow (Time Num : Type 0) : Type 0 where
  pub timestamp : Time
  pub phase : String
  pub redis_pts_user1 : Cell Num
  pub redis_pts_user2 : Cell Num
  pub pg_message_count : Cell Num

abbrev dated :
    {Num : Type 0}
    → Stamp
    → MetricRow Stamp Num
    → Result (List (MetricRow ℕ Num))
    → Result (List (MetricRow ℕ Num))
dated (seconds t) r (ok rows) = ok (
    record {
      timestamp = t;
      phase = r.phase;
      redis_pts_user1 = r.redis_pts_user1;
      redis_pts_user2 = r.redis_pts_user2;
      pg_message_count = r.pg_message_count;
    }
    ∷ rows)
dated (seconds t) r (err e) = err e
dated (other s) r rows = err ("non convertible value " ⊕ s)

-- df['timestamp'] = pd.to_datetime(df['timestamp'], unit='s'), which raises on such another text.
unfoldable pub to_datetime :
    {Num : Type 0} → List (MetricRow Stamp Num) → Result (List (MetricRow ℕ Num))
to_datetime [] = ok []
to_datetime (r ∷ rows) = dated r.timestamp r (to_datetime rows)

-- df.loc[crash_idx[0], 'timestamp'] if len(crash_idx) > 0 else None
unfoldable pub crash_time : {Num : Type 0} → List (MetricRow ℕ Num) → Option ℕ
crash_time [] = none
crash_time (r ∷ rows) = if r.phase == "crash" then some r.timestamp else crash_time rows

module _ (F : Floats) where
  open F use {Num}

  abbrev line : String → List ℕ → List (Cell Num) → String → String → Call Num
  line ax t ys name shade =
      call ax "plot" (times t ∷ cells ys ∷ label name ∷ color shade ∷ kw "linewidth" (int 2) ∷ [])

  abbrev vertical : String → Option ℕ → List (Arg Num) → List (Call Num)
  vertical ax none more = []
  vertical ax (some t) more =
      call ax "axvline"
        (times (t ∷ []) ∷ color "red" ∷ kw "linestyle" (text "--") ∷ kw "linewidth" (int 2) ∷ more)
      ∷ []

  -- Plots 1 and 2, from the metrics file.
  unfoldable pub metrics_calls : List (MetricRow ℕ Num) → List (Call Num)
  metrics_calls rows =
      let t = map (λ (r : MetricRow ℕ Num). r.timestamp) rows in
      let crash = crash_time rows in
      line "axes[0,0]" t (map (λ r. r.redis_pts_user1) rows) "User 1 PTS" "#2563eb"
      ∷ line "axes[0,0]" t (map (λ r. r.redis_pts_user2) rows) "User 2 PTS" "#10b981"
      ∷ (vertical "axes[0,0]" crash (label "Service Restart" ∷ [])
          ++ (axis_titles "axes[0,0]" "Time" "PTS Value" "PTS Growth Over Time (Redis INCR)"
              ++ (legend_and_grid "axes[0,0]"
                  ++ (line "axes[0,1]" t (map (λ r. r.pg_message_count) rows)
                        "Total Messages (Postgres)" "#8b5cf6"
                      ∷ (vertical "axes[0,1]" crash (kw "alpha" (dec 7 1) ∷ [])
                          ++ (axis_titles "axes[0,1]" "Time" "Message Count"
                                "Persisted Message Count Over Time"
                              ++ legend_and_grid "axes[0,1]"))))))

  -- Plot 3: the sizes of the gaps, or a note that there are none.
  unfoldable pub gap_calls : List Num → List (Call Num)
  gap_calls [] =
      call "axes[1,0]" "text" (
        dec 5 1
        ∷ dec 5 1
        ∷ text "No PTS gaps detected\n✓ Perfect ordering"
        ∷ kw "ha" (text "center")
        ∷ kw "va" (text "center")
        ∷ kw "fontsize" (int 14)
        ∷ color "green"
        ∷ kw "fontweight" (text "bold")
        ∷ [])
      ∷ call "axes[1,0]" "set_title" (text "PTS Gap Distribution" ∷ [])
      ∷ call "axes[1,0]" "grid" (flag "True" ∷ kw "alpha" (dec 3 1) ∷ [])
      ∷ []
  gap_calls (g ∷ gs) =
      call "axes[1,0]" "hist" (
        nums (g ∷ gs)
        ∷ kw "bins" (int 20)
        ∷ color "#f59e0b"
        ∷ kw "alpha" (dec 7 1)
        ∷ kw "edgecolor" (text "black")
        ∷ [])
      ∷ call "axes[1,0]" "axvline" (
          num (mean F (g ∷ gs))
          ∷ color "red"
          ∷ kw "linestyle" (text "--")
          ∷ kw "linewidth" (int 2)
          ∷ label (gap_mean_label F (g ∷ gs))
          ∷ [])
      ∷ (axis_titles "axes[1,0]" "Gap Size (missed messages)" "Frequency" (gap_title F (g ∷ gs))
          ++ (call "axes[1,0]" "legend" []
              ∷ call "axes[1,0]" "grid" (flag "True" ∷ kw "alpha" (dec 3 1) ∷ [])
              ∷ []))

  -- Plot 4: the summary.
  unfoldable pub summary_calls : Findings Num → List (Call Num)
  summary_calls f =
      call "axes[1,1]" "axis" (text "off" ∷ [])
      ∷ call "axes[1,1]" "text" (
          dec 1 1
          ∷ dec 95 2
          ∷ text (summary_text F f)
          ∷ kw "fontsize" (int 11)
          ∷ kw "family" (text "monospace")
          ∷ kw "va" (text "top")
          ∷ kw "ha" (text "left")
          ∷ kw "bbox" (
              pair (kw "boxstyle" (text "round"))
                (pair (kw "facecolor" (text "wheat")) (kw "alpha" (dec 3 1))))
          ∷ [])
      ∷ []

  -- Plots 3 and 4, from the k6 output.
  unfoldable pub k6_calls : List (Line Num) → Result (List (Call Num))
  unfolding gap_calls summary_calls
  k6_calls lines = elim (load_lines lines) [
    | err x ↦ err x
    | ok k6_data ↦ elim (read_findings k6_data) [
      | err x ↦ err x
      | ok f ↦ ok (gap_calls f.gap_sizes ++ summary_calls f)
    ]
  ]

  abbrev pub opening : List (Call Num)
  opening =
      call "plt.style" "use" (text "seaborn-v0_8-darkgrid" ∷ [])
      ∷ call "plt" "subplots" (int 2 ∷ int 2 ∷ kw "figsize" (pair (int 16) (int 12)) ∷ [])
      ∷ call "fig" "suptitle" (
          text "TinyTelegram Experiment 4: Consistency Validation & PTS Ordering"
          ∷ kw "fontsize" (int 16)
          ∷ kw "fontweight" (text "bold")
          ∷ [])
      ∷ []

  abbrev pub closing : List (Call Num)
  closing =
      call "plt" "tight_layout" []
      ∷ call "plt" "savefig" (
          text "consistency_results.png"
          ∷ kw "dpi" (int 300)
          ∷ kw "bbox_inches" (text "tight")
          ∷ [])
      ∷ []

  abbrev optional {ℓ} :
      {A : Type ℓ} → Option A → (A → Result (List (Call Num))) → Result (List (Call Num))
  optional none draw = ok []
  optional (some a) draw = draw a

  unfoldable pub metrics_part : List (MetricRow Stamp Num) → Result (List (Call Num))
  unfolding to_datetime metrics_calls
  metrics_part rows = elim (to_datetime rows) [
    | err x ↦ err x
    | ok converted ↦ ok (metrics_calls converted)
  ]

  -- A file that does not exist is passed over; an exception ends the script before `savefig`.
  unfoldable pub plot_consistency_results :
      Option (List (MetricRow Stamp Num)) → Option (List (Line Num)) → Result (List (Call Num))
  unfolding k6_calls metrics_part
  plot_consistency_results metrics k6 = elim (optional metrics metrics_part) [
    | err x ↦ err x
    | ok metrics_drawn ↦ elim (optional k6 k6_calls) [
      | err x ↦ err x
      | ok k6_part ↦ ok (opening ++ (metrics_drawn ++ (k6_part ++ closing)))
    ]
  ]
