-- ===== src/Scripts/Failover/Draw.antt =====
-- The figure that `plot_failover_results` draws.
pub mod Total
use Prim.Native.String.{◌++◌ as ◌⊕◌}
use tinytelegram.Base.{
  ℕ, suc, String, Option, none, some, List, [], ◌∷◌, ◌++◌, map, length, ◌==◌, if◌then◌else◌,
}
use tinytelegram.Base.Exec.{Result, ok, err}
use tinytelegram.Scripts.Python.{Floats, Line, load_lines}
use tinytelegram.Scripts.Figure.{
  Arg, text, int, dec, flag, num, nums, times, kw, pair, Call, call, label, color, axis_titles,
  legend_and_grid,
}
use tinytelegram.Scripts.Points.{collect_values}
use tinytelegram.Scripts.Consistency.Summary.{mean}
use tinytelegram.Scripts.Failover.Stats.{last_item, Percentiles, sorted, cdf, percentiles}

-- A row of failover_metrics.csv; the connection columns may hold texts that are no numbers.
pub record FailoverRow : Type 0 where
  pub timestamp : ℕ
  pub event : String
  pub connections_gw1 : String
  pub connections_gw2 : String
  pub connections_gw3 : String

-- df.loc[failover_idx[0], 'timestamp'] if len(failover_idx) > 0 else None
unfoldable pub failover_time : List FailoverRow → Option ℕ
failover_time [] = none
failover_time (r ∷ rows) = if r.event == "failover" then some r.timestamp else failover_time rows

module _ (F : Floats) (to_numeric : String → Option F.Num) where
  open F use {Num, zero_num, add, tenths, fmt}

  abbrev or_zero : Option Num → Num
  or_zero none = zero_num
  or_zero (some x) = x

  -- pd.to_numeric(column, errors='coerce').fillna(0)
  unfoldable pub column : (FailoverRow → String) → List FailoverRow → List Num
  column cell rows = map (λ r. or_zero (to_numeric (cell r))) rows

  -- The sum of the three columns, row by row.
  unfoldable pub total_connections : List FailoverRow → List Num
  total_connections rows =
      map
        (λ (r : FailoverRow).
          add
            (add (or_zero (to_numeric r.connections_gw1)) (or_zero (to_numeric r.connections_gw2)))
            (or_zero (to_numeric r.connections_gw3)))
        rows

  abbrev line : String → List ℕ → List Num → String → String → Call Num
  line ax t ys name shade =
      call ax "plot" (times t ∷ nums ys ∷ label name ∷ color shade ∷ kw "linewidth" (int 2) ∷ [])

  abbrev killed : String → Option ℕ → Arg Num → List (Call Num)
  killed ax none more = []
  killed ax (some t) more =
      call ax "axvline" (
        times (t ∷ [])
        ∷ color "red"
        ∷ kw "linestyle" (text "--")
        ∷ kw "linewidth" (int 2)
        ∷ more
        ∷ [])
      ∷ []

  -- Plots 1 and 2, from the metrics file.
  unfoldable pub connection_calls : List FailoverRow → List (Call Num)
  connection_calls rows =
      let t = map (λ (r : FailoverRow). r.timestamp) rows in
      let failover = failover_time rows in
      line "axes[0,0]" t (total_connections rows) "Total Connections" "#2563eb"
      ∷ (killed "axes[0,0]" failover (label "Gateway1 Killed")
          ++ (axis_titles "axes[0,0]" "Time" "Active Connections"
                "Total Active Connections During Failover"
              ++ (legend_and_grid "axes[0,0]"
                  ++ (line "axes[0,1]" t (column (λ r. r.connections_gw1) rows) "Gateway 1"
                        "#10b981"
                      ∷ line "axes[0,1]" t (column (λ r. r.connections_gw2) rows) "Gateway 2"
                          "#f59e0b"
                      ∷ line "axes[0,1]" t (column (λ r. r.connections_gw3) rows) "Gateway 3"
                          "#8b5cf6"
                      ∷ (killed "axes[0,1]" failover (kw "alpha" (dec 7 1))
                          ++ (axis_titles "axes[0,1]" "Time" "Connections per Gateway"
                                "Connection Distribution Across Gateways"
                              ++ legend_and_grid "axes[0,1]"))))))

  -- Plot 3: the histogram of the times.
  unfoldable pub histogram_calls : List Num → List (Call Num)
  histogram_calls xs =
      call "axes[1,0]" "hist" (
        nums xs
        ∷ kw "bins" (int 30)
        ∷ color "#8b5cf6"
        ∷ kw "alpha" (dec 7 1)
        ∷ kw "edgecolor" (text "black")
        ∷ [])
      ∷ call "axes[1,0]" "axvline" (
          num (mean F xs)
          ∷ color "red"
          ∷ kw "linestyle" (text "--")
          ∷ kw "linewidth" (int 2)
          ∷ label ("Mean: " ⊕ (fmt 0 (mean F xs) ⊕ "ms"))
          ∷ [])
      ∷ (axis_titles "axes[1,0]" "Reconnection Time (ms)" "Frequency"
            "Reconnection Time Distribution"
          ++ legend_and_grid "axes[1,0]")

  abbrev level : ℕ → String → Call Num
  level y shade =
      call "axes[1,1]" "axhline"
        (dec y 2 ∷ color shade ∷ kw "linestyle" (text ":") ∷ kw "alpha" (dec 5 1) ∷ [])

  abbrev note : Num → ℕ → String → Num → List (Arg Num) → Call Num
  note top y name x more =
      call "axes[1,1]" "text" (
        num (tenths top 7)
        ∷ dec y 2
        ∷ text (name ⊕ (fmt 0 x ⊕ "ms"))
        ∷ kw "fontsize" (int 9)
        ∷ more)

  -- Plot 4: the distribution function with its percentiles; `top` is sorted_times[-1].
  unfoldable pub cdf_calls : List Num → Num → Percentiles Num → List (Call Num)
  cdf_calls sorted_times top p =
      call "axes[1,1]" "plot" (
        nums sorted_times
        ∷ nums (cdf F sorted_times)
        ∷ color "#2563eb"
        ∷ kw "linewidth" (int 2)
        ∷ [])
      ∷ (axis_titles "axes[1,1]" "Reconnection Time (ms)" "Cumulative Probability"
            "Reconnection Time CDF"
          ++ (call "axes[1,1]" "grid" (flag "True" ∷ kw "alpha" (dec 3 1) ∷ [])
              ∷ level 50 "green"
              ∷ level 95 "orange"
              ∷ level 99 "red"
              ∷ note top 52 "p50: " p.p50 []
              ∷ note top 97 "p95: " p.p95 []
              ∷ note top 101 "p99: " p.p99 (kw "va" (text "bottom") ∷ [])
              ∷ []))

  abbrev pub last_of : List Num → Num
  last_of [] = zero_num
  last_of (x ∷ xs) = last_item x xs

  -- if reconnect_times: ...
  unfoldable pub reconnect_calls : List Num → Result (List (Call Num))
  unfolding histogram_calls cdf_calls
  reconnect_calls [] = ok []
  reconnect_calls (x ∷ xs) =
      let sorted_times = sorted F (x ∷ xs) in
      elim (percentiles F sorted_times) [
        | err e ↦ err e
        | ok p ↦ ok (histogram_calls (x ∷ xs) ++ cdf_calls sorted_times (last_of sorted_times) p)
      ]

  unfoldable pub k6_calls : List (Line Num) → Result (List (Call Num))
  k6_calls lines = elim (load_lines lines) [
    | err x ↦ err x
    | ok k6_data ↦ elim (collect_values "reconnect_time_ms" k6_data) [
      | err x ↦ err x
      | ok reconnect_times ↦ reconnect_calls reconnect_times
    ]
  ]

  abbrev pub opening : List (Call Num)
  opening =
      call "plt.style" "use" (text "seaborn-v0_8-darkgrid" ∷ [])
      ∷ call "plt" "subplots" (int 2 ∷ int 2 ∷ kw "figsize" (pair (int 16) (int 12)) ∷ [])
      ∷ call "fig" "suptitle" (
          text "TinyTelegram Experiment 3: Gateway Failover & Recovery"
          ∷ kw "fontsize" (int 16)
          ∷ kw "fontweight" (text "bold")
          ∷ [])
      ∷ []

  abbrev pub closing : List (Call Num)
  closing =
      call "plt" "tight_layout" []
      ∷ call "plt" "savefig"
          (text "failover_results.png" ∷ kw "dpi" (int 300) ∷ kw "bbox_inches" (text "tight") ∷ [])
      ∷ []

  abbrev pub from_metrics : Option (List FailoverRow) → List (Call Num)
  from_metrics none = []
  from_metrics (some rows) = connection_calls rows

  abbrev pub from_k6 : Option (List (Line Num)) → Result (List (Call Num))
  from_k6 none = ok []
  from_k6 (some lines) = k6_calls lines

  -- A file that does not exist is passed over; an exception ends the script before `savefig`.
  unfoldable pub plot_failover_results :
      Option (List FailoverRow) → Option (List (Line Num)) → Result (List (Call Num))
  plot_failover_results metrics k6 = elim (from_k6 k6) [
    | err x ↦ err x
    | ok k6_part ↦ ok (opening ++ (from_metrics metrics ++ (k6_part ++ closing)))
  ]
