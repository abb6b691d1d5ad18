-- ===== src/Scripts/Tests.antt =====
-- The theorems about the scripts at concrete inputs.
use tinytelegram.Base.{
  ℕ, ◌+◌, ◌%◌, ◌<◌, ◌≡◌, ◌≢◌, refl, ◌↔◌, ◌⊎◌, String, true, some, List, [], ◌∷◌, arith, length,
}
use Prim.Native.String.{◌++◌}
use tinytelegram.Base.Exec.{ok}
use tinytelegram.Scripts.Python.{Json, Line, object, number, string, member, end, parsed, blank}
use tinytelegram.Scripts.Figure.{Call, Cell, empty, value, word}
use tinytelegram.Scripts.Points.{is_point, point_value}
use tinytelegram.Scripts.Points.Total.{NoPoint}
use tinytelegram.Scripts.Consistency.Summary.{
  Findings, read_findings, report, summary_text, verdict_pass,
}
use tinytelegram.Scripts.Consistency.Verdict.{verdict_exact, plot_total, IsDated}
use tinytelegram.Scripts.Consistency.Draw.{
  Stamp, seconds, other, MetricRow, plot_consistency_results,
}
use tinytelegram.Scripts.TimeSeries.Load.{Samples, read_lines}
use tinytelegram.Scripts.TimeSeries.Aligned.{lengths_differ, lone_lines}
use tinytelegram.Scripts.TimeSeries.Bins.{width, window_count, in_window}
use tinytelegram.Scripts.TimeSeries.Cover.{sample_binned_iff}
use tinytelegram.Scripts.Sim.{whole}

-- {"type": "Point", "metric": ..., "data": {"value": ...}}
abbrev point : String → ℕ → Json ℕ
point metric v = object (
    member "type" (string "Point") (
      member "metric" (string metric) (member "data" (object (member "value" (number v) end)) end)))

-- What consistency_test_simple.js writes when it meets a gap.
abbrev simple_run : List (Json ℕ)
simple_run = point "pts_gaps_detected" 1 ∷ []

abbrev simple_findings : Findings ℕ
simple_findings = record { gap_sizes = []; order_violations = 0; gaps_detected = 1; duplicates = 0 }

simple_read : read_findings simple_run ≡ ok simple_findings
unfolding read_findings is_point
simple_read = refl

verdict_exact_example :
    (summary_text whole simple_findings ≡ report whole simple_findings ++ verdict_pass)
    ↔ NoPoint "pts_order_violations" simple_run
verdict_exact_example = verdict_exact whole simple_run simple_findings simple_read

size_read : (v : ℕ) × (point_value (point "pts_gap_size" 4) ≡ ok v)
unfolding point_value
size_read = (4, refl)

abbrev metric : Stamp → String → Cell ℕ → MetricRow Stamp ℕ
metric timestamp phase count = record {
  timestamp = timestamp;
  phase = phase;
  redis_pts_user1 = empty;
  redis_pts_user2 = empty;
  pg_message_count = count;
}

-- The rows around the restart, as run_consistency.sh writes them.
abbrev metrics : List (MetricRow Stamp ℕ)
metrics =
    metric (seconds 1776055519) "running" (value 0)
    ∷ metric (other "timestamp") "crash" (word "?")
    ∷ metric (seconds 1776055524) "running" (value 0)
    ∷ []

plot_total_example :
    ((calls : List (Call ℕ)) × (plot_consistency_results whole
          (some metrics)
          (some (blank ∷ parsed (point "pts_gap_size" 4) ∷ []))
        ≡ ok calls))
    ↔ IsDated whole (some metrics)
plot_total_example =
    plot_total whole (some metrics) (blank ∷ parsed (point "pts_gap_size" 4) ∷ [])
      (tt, (((_, refl), λ _. size_read), tt))

-- With these rows the script does not come to an end.
no_figure : ¬ (
    (calls : List (Call ℕ)) × (plot_consistency_results whole
        (some metrics)
        (some (blank ∷ parsed (point "pts_gap_size" 4) ∷ []))
      ≡ ok calls))
no_figure drawn =
    let (_, ((t, seconds_t), _)) = plot_total_example.0 drawn in absurd (ground (arith, seconds_t))

-- The last of the samples, after ten seconds, lies in no window.
sample_at_ten :
    ((i : ℕ) × (i < window_count 10000000) × (in_window i 10000000 ≡ true))
    ↔ ((10000000 < 10000000) ⊎ (10000000 % width ≢ 0))
sample_at_ten = sample_binned_iff 10000000 10000000 (omega arith)

-- A point with a time and no value.
abbrev no_value : List (Line ℕ)
no_value =
    parsed (
      object (
        member "type" (string "Point") (
          member "metric" (string "http_req_duration")
            (member "data" (object (member "time" (string "t") end)) end))))
    ∷ []

abbrev no_samples : Samples ℕ
no_samples = record { timestamps = []; durations = [] }

no_value_shifts :
    length (read_lines (λ s. some 5) no_samples no_value).timestamps + 0
    ≡ length (read_lines (λ s. some 5) no_samples no_value).durations
      + 0
      + lone_lines (λ s. some 5) no_value
no_value_shifts = lengths_differ (λ s. some 5) no_samples no_value
