-- ===== src/Scripts/Consistency/Verdict.antt =====
-- What the summary says, against the entries of the k6 output.
use Prim.Native.String.{◌++◌ as ◌⊕◌}
use text.Mathlib.TextLemmas.{append_cancel_left}
use tinytelegram.Base.{
  ℕ, ◌≡◌, ◌≢◌, refl, ◌↔◌, Option, none, some, List, ◌++◌, arith, All, inl, inr, eqb, Bool-cases, ap,
  eq_iff, ◌⊎◌, String, [], ◌∷◌,
}
use tinytelegram.Base.Exec.{ok, Result-cases}
use tinytelegram.Scripts.Python.{Floats, Json, Line}
use tinytelegram.Scripts.Figure.{Call}
use tinytelegram.Scripts.Points.{collect_values, count_points}
use tinytelegram.Scripts.Points.Total.{
  NoPoint, SomePoint, count-zero_iff, collect-nothing, SomePoint-not_NoPoint, IsReadable,
  IsReadableLine, count-total, collect-total, load-total,
}
use tinytelegram.Scripts.Consistency.Summary.{
  Findings, read_findings, verdict, verdict_pass, verdict_fail, no_gaps, gaps_part, report,
  summary_text,
}
use tinytelegram.Scripts.Consistency.Draw.{
  Stamp, seconds, other, MetricRow, to_datetime, metrics_part, k6_calls, plot_consistency_results,
  gap_calls, summary_calls, metrics_calls, opening, closing,
}

fail-ne-pass : verdict_fail ≢ verdict_pass
fail-ne-pass h = ground (arith, eq_iff verdict_fail verdict_pass)

pub zero_pass : (n : ℕ) → n ≡ 0 → verdict n ≡ verdict_pass
unfolding verdict
zero_pass n h = ground arith

pass_zero : (n : ℕ) → verdict n ≡ verdict_pass → n ≡ 0
unfolding verdict
pass_zero n h = elim (Bool-cases (eqb n 0)) [
  | inl e ↦ ground arith
  | inr e ↦ absurd (fail-ne-pass (rw e at h))
]

module _ {Num : Type 0} where
  pub findings_run :
      (es : List (Json Num)) (f : Findings Num)
      → read_findings es ≡ ok f
      → (collect_values "pts_gap_size" es ≡ ok f.gap_sizes)
        × (count_points "pts_order_violations" es ≡ ok f.order_violations)
        × (count_points "pts_gaps_detected" es ≡ ok f.gaps_detected)
        × (count_points "duplicate_messages" es ≡ ok f.duplicates)
  unfolding read_findings
  findings_run es f h = ground arith

  pub findings_total :
      (es : List (Json Num))
      → All (IsReadable "pts_gap_size") es
      → (f : Findings Num) × (read_findings es ≡ ok f)
  unfolding read_findings
  findings_total es h =
      let (sizes, got_sizes) = collect-total "pts_gap_size" es h in
      let (violations, got_violations) = count-total "pts_gap_size" "pts_order_violations" es h in
      let (gaps, got_gaps) = count-total "pts_gap_size" "pts_gaps_detected" es h in
      let (dups, got_dups) = count-total "pts_gap_size" "duplicate_messages" es h in
      (
        record {
          gap_sizes = sizes;
          order_violations = violations;
          gaps_detected = gaps;
          duplicates = dups;
        },
        rw (got_sizes, got_violations, got_gaps, got_dups, read_findings),
      )

module _ (F : Floats) where
  open F use {Num}

  -- The summary ends with the passing verdict exactly if no entry of the k6 output is an order
  -- violation.
  pub verdict_exact :
      (es : List (Json Num)) (f : Findings Num)
      → read_findings es ≡ ok f
      → (summary_text F f ≡ report F f ⊕ verdict_pass) ↔ NoPoint "pts_order_violations" es
  unfolding summary_text
  verdict_exact es f h =
      let run = findings_run es f h in
      let exact = count-zero_iff "pts_order_violations" es f.order_violations run.1 in
      (
        λ same. exact.0 (pass_zero f.order_violations (append_cancel_left (report F f) _ _ same)),
        λ no_point. ap (λ v. report F f ⊕ v) (zero_pass f.order_violations (exact.1 no_point)),
      )

  -- With points of detected gaps and none of gap sizes, as consistency_test_simple.js writes them,
  -- the count of gaps is positive and the summary says that there are none.
  pub gaps_contradicted :
      (es : List (Json Num)) (f : Findings Num)
      → read_findings es ≡ ok f
      → SomePoint "pts_gaps_detected" es
      → NoPoint "pts_gap_size" es
      → (f.gaps_detected ≢ 0) × (gaps_part F f.gaps_detected f.gap_sizes ≡ no_gaps)
  unfolding gaps_part
  gaps_contradicted es f h some_gap no_size =
      let run = findings_run es f h in
      let exact = count-zero_iff "pts_gaps_detected" es f.gaps_detected run.2 in
      (
        λ zero_gaps. SomePoint-not_NoPoint "pts_gaps_detected" es some_gap (exact.0 zero_gaps),
        rw (collect-nothing "pts_gap_size" es f.gap_sizes run.0 no_size) refl,
      )

  k6-total :
      (lines : List (Line Num))
      → All (IsReadableLine "pts_gap_size") lines
      → (calls : List (Call Num)) × (k6_calls F lines ≡ ok calls)
  unfolding k6_calls
  k6-total lines h =
      let (es, loaded, all) = load-total "pts_gap_size" lines h in
      let (f, found) = findings_total es all in
      (gap_calls F f.gap_sizes ++ summary_calls F f, rw (loaded, k6_calls, found))

  -- The metrics file, if there is one, has a number of seconds for every timestamp.
  abbrev pub IsDated : Option (List (MetricRow Stamp Num)) → Type 0
  IsDated none = Unit
  IsDated (some rows) = All (λ (r : MetricRow Stamp Num). (t : ℕ) × (r.timestamp ≡ seconds t)) rows

  IsDated-converted :
      (rows : List (MetricRow Stamp Num))
      → IsDated (some rows)
      → (converted : List (MetricRow ℕ Num)) × (to_datetime rows ≡ ok converted)
  unfolding to_datetime
  IsDated-converted [] h = ([], refl)
  IsDated-converted (r ∷ rows) ((t, number), h) =
      let (converted, rest) = IsDated-converted rows h in rw (number, rest) (_, refl)

  stamp-cases : (s : Stamp) → ((t : ℕ) × (s ≡ seconds t)) ⊎ ((text : String) × (s ≡ other text))
  stamp-cases (seconds t) = inl (t, refl)
  stamp-cases (other text) = inr (text, refl)

  converted-IsDated :
      (rows : List (MetricRow Stamp Num)) (converted : List (MetricRow ℕ Num))
      → to_datetime rows ≡ ok converted
      → IsDated (some rows)
  unfolding to_datetime
  converted-IsDated [] converted h = tt
  converted-IsDated (r ∷ rows) converted h = elim (stamp-cases r.timestamp) [
    | inr (text, other_text) ↦ absurd (ground (arith, h, other_text))
    | inl (t, number) ↦ elim (Result-cases (to_datetime rows)) [
      | inl (rest, e) ↦ ((t, number), converted-IsDated rows rest e)
      | inr (x, e) ↦ absurd (ground (arith, h, number, e))
    ]
  ]

  pub plot_total :
      (metrics : Option (List (MetricRow Stamp Num))) (lines : List (Line Num))
      → All (IsReadableLine "pts_gap_size") lines
      → ((calls : List (Call Num)) × (plot_consistency_results F metrics (some lines) ≡ ok calls))
        ↔ IsDated metrics
  unfolding plot_consistency_results metrics_part
  plot_total none lines h =
      let (calls, drawn) = k6-total lines h in
      ((λ _. tt), (λ _. (opening F ++ (calls ++ closing F), rw (drawn, plot_consistency_results))))
  plot_total (some rows) lines h =
      let (calls, drawn) = k6-total lines h in
      (
        (λ (all, done). elim (Result-cases (to_datetime rows)) [
          | inl (converted, e) ↦ converted-IsDated rows converted e
          | inr (x, e) ↦ absurd (ground (arith, done, e))
        ]),
        (λ numbers.
            let (converted, e) = IsDated-converted rows numbers in
            (
              opening F ++ (metrics_calls F converted ++ (calls ++ closing F)),
              rw (e, drawn, plot_consistency_results),
            )),
      )
