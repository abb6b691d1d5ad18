-- ===== src/Scripts/Gateways.antt =====
-- scripts/experiment1/plot_results.py. A data frame is the list of its rows; what the script computes
-- with pandas over several rows is a parameter.
use Prim.Native.String.{◌++◌ as ◌<>◌}
use tinytelegram.Base.{
  ℕ, ◌-◌, String, Option, none, some, List, [], ◌∷◌, ◌++◌, map, ◌==◌, filter, eqb, if◌then◌else◌,
}
use tinytelegram.Scripts.Figure.{text, int, dec, nums, times, kw, pair, Call, call, label, color}
use tinytelegram.Scripts.Deck.Pptx.{str}

-- A row of a metrics file.
pub record Sample (Num : Type 0) : Type 0 where
  pub timestamp : ℕ
  pub gateway : String
  pub active_connections : Num
  pub goroutines : Num
  pub heap_alloc_mb : Num

-- Series.min, groupby(...).agg("sum").reset_index() for one column, and Series.unique.
pub record Frames (Num : Type 0) : Type 0 where
  pub min : List ℕ → ℕ
  pub group_sum : List (ℕ × Num) → List (ℕ × Num)
  pub unique : List String → List String

-- `colors`, at the keys 1, 3 and 5, which are all that the script uses.
abbrev shade_of : ℕ → String
shade_of num_gw = if eqb num_gw 1 then "#e74c3c" else if eqb num_gw 3 then "#3498db" else "#2ecc71"

module _ {Num : Type 0} (F : Frames Num) where
  abbrev start_of : List (Sample Num) → ℕ
  start_of df = F.min (map (λ (s : Sample Num). s.timestamp) df)

  -- agg["elapsed"] and one column of agg, drawn over each other.
  abbrev total_line : String → (Sample Num → Num) → ℕ → List (Sample Num) → Call Num
  total_line ax column num_gw df =
      let start = start_of df in
      let agg = F.group_sum (map (λ (s : Sample Num). (s.timestamp - start, column s)) df) in
      call ax "plot" (
        times (map (λ p. p.0) agg)
        ∷ nums (map (λ p. p.1) agg)
        ∷ label (str num_gw <> " gateway(s)")
        ∷ color (shade_of num_gw)
        ∷ [])

  abbrev gateway_line : ℕ → List (Sample Num) → String → Call Num
  gateway_line num_gw df gateway =
      let start = start_of df in
      let gw_df = filter (λ (s : Sample Num). s.gateway == gateway) df in
      call "axes[1,1]" "plot" (
        times (map (λ (s : Sample Num). s.timestamp - start) gw_df)
        ∷ nums (map (λ (s : Sample Num). s.heap_alloc_mb) gw_df)
        ∷ label (str num_gw <> ("gw-" <> gateway))
        ∷ kw "alpha" (dec 7 1)
        ∷ [])

  -- One number of gateways; without its file there is only a line of output.
  unfoldable pub gateways_calls : ℕ → Option (List (Sample Num)) → List (Call Num)
  gateways_calls num_gw none = []
  gateways_calls num_gw (some df) =
      total_line "axes[0,0]" (λ s. s.active_connections) num_gw df
      ∷ total_line "axes[0,1]" (λ s. s.goroutines) num_gw df
      ∷ total_line "axes[1,0]" (λ s. s.heap_alloc_mb) num_gw df
      ∷ map (gateway_line num_gw df) (F.unique (map (λ (s : Sample Num). s.gateway) df))

  abbrev panel : String → String → String → List (Call Num)
  panel ax title y =
      call ax "set_title" (text title ∷ [])
      ∷ call ax "set_xlabel" (text "Time (s)" ∷ [])
      ∷ call ax "set_ylabel" (text y ∷ [])
      ∷ []

  abbrev legend : String → List (Call Num)
  legend ax = call ax "legend" [] ∷ []

  abbrev panels : List (Call Num)
  panels =
      panel "axes[0,0]" "Total Active Connections" "Connections"
      ++ (legend "axes[0,0]"
          ++ (panel "axes[0,1]" "Total Goroutines" "Goroutines"
              ++ (legend "axes[0,1]"
                  ++ (panel "axes[1,0]" "Total Heap Memory (MB)" "MB"
                      ++ (legend "axes[1,0]"
                          ++ (panel "axes[1,1]" "Per-Gateway Heap Memory (MB)" "MB"
                              ++ (call "axes[1,1]" "legend" (kw "fontsize" (int 7) ∷ []) ∷ [])))))))

  abbrev all_gateways : (ℕ → Option (List (Sample Num))) → List ℕ → List (Call Num)
  all_gateways file [] = []
  all_gateways file (num_gw ∷ rest) = gateways_calls num_gw (file num_gw) ++ all_gateways file rest

  -- `file` is the content of the metrics file for a number of gateways, if it exists.
  unfoldable pub plot_gateways : (ℕ → Option (List (Sample Num))) → String → List (Call Num)
  unfolding gateways_calls
  plot_gateways file results_dir =
      call "plt" "subplots" (int 2 ∷ int 2 ∷ kw "figsize" (pair (int 14) (int 10)) ∷ [])
      ∷ call "fig" "suptitle"
          (text "Experiment 1: Gateway Horizontal Scaling" ∷ kw "fontsize" (int 16) ∷ [])
      ∷ (all_gateways file (1 ∷ 3 ∷ 5 ∷ [])
          ++ (panels
              ++ (call "plt" "tight_layout" []
                  ∷ call "plt" "savefig"
                      (text (results_dir <> "/experiment1_results.png") ∷ kw "dpi" (int 150) ∷ [])
                  ∷ [])))
