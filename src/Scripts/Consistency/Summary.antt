-- ===== src/Scripts/Consistency/Summary.antt =====
-- The text of the summary panel.
use Prim.Native.String.{◌++◌}
use tinytelegram.Base.{ℕ, String, List, [], ◌∷◌, length, eqb, ltb, if◌then◌else◌}
use tinytelegram.Base.Exec.{Result, ok, err}
use tinytelegram.Scripts.Python.{Floats, Json}
use tinytelegram.Scripts.Points.{collect_values, count_points}

-- What the script reads off the entries of the k6 output.
pub record Findings (Num : Type 0) : Type 0 where
  pub gap_sizes : List Num
  pub order_violations : ℕ
  pub gaps_detected : ℕ
  pub duplicates : ℕ

unfoldable pub read_findings : {Num : Type 0} → List (Json Num) → Result (Findings Num)
unfolding collect_values count_points
read_findings k6_data = elim (collect_values "pts_gap_size" k6_data) [
  | err x ↦ err x
  | ok sizes ↦ elim (count_points "pts_order_violations" k6_data) [
    | err x ↦ err x
    | ok violations ↦ elim (count_points "pts_gaps_detected" k6_data) [
      | err x ↦ err x
      | ok gaps ↦ elim (count_points "duplicate_messages" k6_data) [
        | err x ↦ err x
        | ok dups ↦ ok (record {
          gap_sizes = sizes;
          order_violations = violations;
          gaps_detected = gaps;
          duplicates = dups;
        })
      ]
    ]
  ]
]

abbrev pub line_of_40 : String
line_of_40 = "========================================"

abbrev pub verdict_pass : String
verdict_pass =
    "✓ Redis INCR maintains strict\n  per-user causal ordering.\n  CP guarantees preserved."

abbrev pub verdict_fail : String
verdict_fail = "✗ Consistency issues detected.\n  Further investigation needed."

abbrev pub no_gaps : String
no_gaps = "  ✓ No gaps (perfect continuity)\n\n"

abbrev pub no_duplicates : String
no_duplicates = "  ✓ No duplicates detected\n\n"

unfoldable pub verdict : ℕ → String
verdict order_violations = if eqb order_violations 0 then verdict_pass else verdict_fail

unfoldable pub order_part : ℕ → String
order_part order_violations =
    if eqb order_violations 0
    then "  ✓ PASS: Strict ordering maintained\n\n"
    else "  ✗ FAIL: Ordering guarantees broken\n\n"

unfoldable pub duplicates_part : ℕ → String
duplicates_part duplicates =
    if eqb duplicates 0 then no_duplicates else "  (Handled by client-side dedup)\n\n"

module _ (F : Floats) where
  open F use {Num, zero_num, add, over, at_most, show, show_int, fmt}

  -- sum(xs)
  unfoldable pub total : Num → List Num → Num
  total acc [] = acc
  total acc (x ∷ xs) = total (add acc x) xs

  -- max([x] + xs): the first of the largest numbers
  unfoldable pub largest : Num → List Num → Num
  largest x [] = x
  largest x (y ∷ ys) = largest (if at_most y x then x else y) ys

  -- sum(xs)/len(xs), of a list that is not empty
  unfoldable pub mean : List Num → Num
  unfolding total
  mean xs = over (total zero_num xs) (length xs)

  -- if gaps_detected > 0 and gap_sizes
  unfoldable pub gaps_part : ℕ → List Num → String
  unfolding mean largest
  gaps_part gaps_detected [] = no_gaps
  gaps_part gaps_detected (g ∷ gs) =
      if ltb 0 gaps_detected
      then "  Average Gap Size: "
        ++ (fmt 2 (mean (g ∷ gs))
            ++ ("\n"
                ++ ("  Max Gap Size: "
                    ++ (show (largest g gs) ++ ("\n" ++ "  (Gaps trigger getDiff recovery)\n\n")))))
      else no_gaps

  -- The text that comes before the verdict.
  unfoldable pub report : Findings Num → String
  unfolding order_part gaps_part duplicates_part
  report f =
      "Consistency Validation Summary\n"
      ++ (line_of_40
          ++ ("\n\n"
              ++ ("PTS Order Violations: "
                  ++ (show_int f.order_violations
                      ++ ("\n"
                          ++ (order_part f.order_violations
                              ++ ("PTS Gaps Detected: "
                                  ++ (show_int f.gaps_detected
                                      ++ ("\n"
                                          ++ (gaps_part f.gaps_detected f.gap_sizes
                                              ++ ("Duplicate Messages: "
                                                  ++ (show_int f.duplicates
                                                      ++ ("\n"
                                                          ++ (duplicates_part f.duplicates
                                                            ++ ("\n"
                                                            ++ (line_of_40
                                                            ++ ("\n"
                                                            ++ "VERDICT:\n")))))))))))))))))

  unfoldable pub summary_text : Findings Num → String
  unfolding report verdict
  summary_text f = report f ++ verdict f.order_violations

  -- f'Mean: {...:.1f}'
  unfoldable pub gap_mean_label : List Num → String
  unfolding mean
  gap_mean_label gap_sizes = "Mean: " ++ fmt 1 (mean gap_sizes)

  unfoldable pub gap_title : List Num → String
  gap_title gap_sizes =
      "PTS Gap Distribution (" ++ (show_int (length gap_sizes) ++ " gaps detected)")
