-- ===== src/Scripts/TimeSeries/Aligned.antt =====
-- Whether the two lists that `zip` pairs stay in step.
use tinytelegram.Base.{
  ℕ, ◌+◌, ◌≡◌, String, Bool, true, false, Option, List, [], ◌∷◌, arith, length, length-append, inl,
  inr, Bool-cases,
}
use tinytelegram.Base.Exec.{Result, ok, err, Result-cases}
use tinytelegram.Scripts.Python.{Json, Line, blank, parsed, malformed}
use tinytelegram.Scripts.Points.{is_point, raw_value}
use tinytelegram.Scripts.TimeSeries.Load.{Samples, point_time, append_both, read_line, read_lines}

module _ {Num : Type 0} (iso : String → Option ℕ) where
  -- A point whose time can be read and whose value cannot.
  abbrev lone : Result Bool → Result ℕ → Result (Json Num) → ℕ
  lone (ok true) (ok t) (err x) = 1
  lone (ok true) (ok t) (ok v) = 0
  lone (ok true) (err x) value = 0
  lone (ok false) time value = 0
  lone (err x) time value = 0

  abbrev pub lone_line : Line Num → ℕ
  lone_line blank = 0
  lone_line malformed = 0
  lone_line (parsed e) = lone (is_point "http_req_duration" e) (point_time iso e) (raw_value e)

  abbrev pub lone_lines : List (Line Num) → ℕ
  lone_lines [] = 0
  lone_lines (l ∷ rest) = lone_line l + lone_lines rest

  appended :
      (s : Samples Num) (time : Result ℕ) (value : Result (Json Num))
      → let s' = append_both iso s time value in
        length s'.timestamps + length s.durations
        ≡ length s'.durations + length s.timestamps + lone (ok true) time value
  appended s (err x) value = omega arith
  appended s (ok t) (err x) = omega (arith, length-append s.timestamps (t ∷ []))
  appended s (ok t) (ok v) =
      omega (arith, length-append s.timestamps (t ∷ []), length-append s.durations (v ∷ []))

  one_line :
      (s : Samples Num) (l : Line Num)
      → let s' = read_line iso s l in
        length s'.timestamps + length s.durations
        ≡ length s'.durations + length s.timestamps + lone_line l
  unfolding read_line
  one_line s blank = omega arith
  one_line s malformed = omega arith
  one_line s (parsed e) = elim (Result-cases (is_point "http_req_duration" e)) [
    | inr (x, failed) ↦ rw failed (omega arith)
    | inl (b, known) ↦ elim (Bool-cases b) [
      | inr no_point ↦ rw (known, no_point) (omega arith)
      | inl point ↦ rw (known, point) (appended s (point_time iso e) (raw_value e))
    ]
  ]

  -- The list of times is longer than the list of durations by exactly the number of points whose
  -- time can be read and whose value cannot; with no such point the two lists stay in step.
  pub lengths_differ :
      (s : Samples Num) (lines : List (Line Num))
      → let s' = read_lines iso s lines in
        length s'.timestamps + length s.durations
        ≡ length s'.durations + length s.timestamps + lone_lines lines
  unfolding read_lines
  lengths_differ s [] = omega arith
  lengths_differ s (l ∷ rest) = omega (arith, one_line s l, lengths_differ (read_line iso s l) rest)
