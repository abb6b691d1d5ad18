-- ===== src/Scripts/Failover/Draw/Total.antt =====
-- The script ends with its figure.
use tinytelegram.Base.{◌≡◌, refl, String, Option, some, List, [], ◌∷◌, ◌++◌, All, arith}
use tinytelegram.Base.Exec.{ok}
use tinytelegram.Scripts.Python.{Floats, Line}
use tinytelegram.Scripts.Figure.{Call}
use tinytelegram.Scripts.Points.Total.{IsReadableLine, load-total, collect-total}
use tinytelegram.Scripts.Failover.Stats.{sorted}
use tinytelegram.Scripts.Failover.Order.{percentiles_ordered}
use tinytelegram.Scripts.Failover.Draw.{
  FailoverRow, reconnect_calls, k6_calls, opening, closing, from_metrics, plot_failover_results,
  histogram_calls, cdf_calls, last_of,
}

module _ (F : Floats) (to_numeric : String → Option F.Num) where
  open F use {Num}

  reconnect-total :
      (xs : List Num) → (calls : List (Call Num)) × (reconnect_calls F to_numeric xs ≡ ok calls)
  unfolding reconnect_calls
  reconnect-total [] = ([], refl)
  reconnect-total (x ∷ xs) =
      let (p, found, _, _) = percentiles_ordered F (x ∷ xs) (omega arith) in
      (
        histogram_calls F to_numeric (x ∷ xs)
            ++ cdf_calls F to_numeric (sorted F (x ∷ xs)) (last_of F to_numeric (sorted F (x ∷ xs)))
                p,
        rw (found, reconnect_calls),
      )

  -- If every line of the k6 output is blank or an entry that the script can read, the script draws
  -- its figure with no exception, for any metrics file and any cells in it.
  pub plot_failover_total :
      (metrics : Option (List FailoverRow)) (lines : List (Line Num))
      → All (IsReadableLine "reconnect_time_ms") lines
      → (calls : List (Call Num)) × (plot_failover_results F to_numeric metrics (some lines)
          ≡ ok calls)
  unfolding plot_failover_results k6_calls
  plot_failover_total metrics lines h =
      let (es, loaded, all) = load-total "reconnect_time_ms" lines h in
      let (xs, collected) = collect-total "reconnect_time_ms" es all in
      let (calls, drawn) = reconnect-total xs in
      (
        opening F to_numeric
            ++ (from_metrics F to_numeric metrics ++ (calls ++ closing F to_numeric)),
        rw (loaded, collected, drawn, k6_calls, plot_failover_results),
      )
