-- ===== src/Scripts/TimeSeries/Load.antt =====
-- The loop that reads the points. Any exception inside it, also between the two appends, passes on to
-- the next line.
use tinytelegram.Base.{
  ℕ, ◌-◌, String, Bool, true, false, Option, none, some, List, [], ◌∷◌, ◌++◌, map, ltb,
  if◌then◌else◌,
}
use tinytelegram.Base.Exec.{Result, ok, err}
use tinytelegram.Scripts.Python.{
  Json, Line, blank, parsed, malformed, null, number, string, array, object, index,
}
use tinytelegram.Scripts.Points.{is_point, raw_value}

-- The two lists; times are in microseconds, and durations are the values as they stand in the file.
pub record Samples (Num : Type 0) : Type 0 where
  pub timestamps : List ℕ
  pub durations : List (Json Num)

-- `iso` is `datetime.fromisoformat(t.replace('Z', '+00:00')).timestamp()`, of external code.
module _ {Num : Type 0} (iso : String → Option ℕ) where
  abbrev parse_time : Json Num → Result ℕ
  parse_time (string s) = elim (iso s) [ none ↦ err "ValueError" | some t ↦ ok t ]
  parse_time null = err "AttributeError"
  parse_time (number x) = err "AttributeError"
  parse_time (array xs) = err "AttributeError"
  parse_time (object members) = err "AttributeError"

  -- data['data']['time'], parsed
  unfoldable pub point_time : Json Num → Result ℕ
  unfolding index
  point_time e = elim (index e "data") [
    | err x ↦ err x
    | ok d ↦ elim (index d "time") [ err x ↦ err x | ok t ↦ parse_time t ]
  ]

  -- timestamps.append(...), then durations.append(...), each if it does not raise.
  abbrev pub append_both : Samples Num → Result ℕ → Result (Json Num) → Samples Num
  append_both s (err x) value = s
  append_both s (ok t) (err x) = record {
    timestamps = s.timestamps ++ (t ∷ []);
    durations = s.durations;
  }
  append_both s (ok t) (ok v) = record {
    timestamps = s.timestamps ++ (t ∷ []);
    durations = s.durations ++ (v ∷ []);
  }

  abbrev pub on_point : Samples Num → Json Num → Result Bool → Samples Num
  on_point s e (ok true) = append_both s (point_time e) (raw_value e)
  on_point s e (ok false) = s
  on_point s e (err x) = s

  unfoldable pub read_line : Samples Num → Line Num → Samples Num
  read_line s blank = s
  read_line s malformed = s
  read_line s (parsed e) = on_point s e (is_point "http_req_duration" e)

  -- for line in f: ...
  unfoldable pub read_lines : Samples Num → List (Line Num) → Samples Num
  read_lines s [] = s
  read_lines s (l ∷ rest) = read_lines (read_line s l) rest

-- min(timestamps), of the list t ∷ ts
unfoldable pub earliest : ℕ → List ℕ → ℕ
earliest t [] = t
earliest t (u ∷ us) = earliest (if ltb u t then u else t) us

unfoldable pub latest : ℕ → List ℕ → ℕ
latest t [] = t
latest t (u ∷ us) = latest (if ltb t u then u else t) us

-- [t - t0 for t in timestamps]; `t0` is the least of them.
unfoldable pub relative_times : ℕ → List ℕ → List ℕ
relative_times t0 timestamps = map (λ (t : ℕ). t - t0) timestamps
