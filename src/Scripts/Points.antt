-- ===== src/Scripts/Points.antt =====
-- The points of the k6 output that the scripts of experiments 3 and 4 count and collect.
pub mod Total
use tinytelegram.Base.{ℕ, suc, String, Bool, true, false, Option, none, some, List, [], ◌∷◌, ◌&&◌}
use tinytelegram.Base.Exec.{Result, ok, err}
use tinytelegram.Scripts.Python.{Json, null, number, string, array, object, get, index, is_text}

abbrev tick : Result Bool → Result ℕ → Result ℕ
tick (err x) rest = err x
tick (ok b) (err x) = err x
tick (ok true) (ok n) = ok (suc n)
tick (ok false) (ok n) = ok n

module _ {Num : Type 0} where
  -- e.get('type') == 'Point' and e.get('metric') == metric
  unfoldable pub is_point : String → Json Num → Result Bool
  unfolding get is_text
  is_point metric e = elim (get e "type") [
    | err x ↦ err x
    | ok kind ↦ elim (get e "metric") [
      | err x ↦ err x
      | ok name ↦ ok (is_text kind "Point" && is_text name metric)
    ]
  ]

  -- The numbers that `sum` and `max` accept; any other value makes them raise.
  unfoldable pub as_number : Json Num → Result Num
  as_number (number x) = ok x
  as_number null = err "TypeError"
  as_number (string s) = err "TypeError"
  as_number (array xs) = err "TypeError"
  as_number (object members) = err "TypeError"

  -- entry['data']['value']
  unfoldable pub raw_value : Json Num → Result (Json Num)
  unfolding index
  raw_value e = elim (index e "data") [ err x ↦ err x | ok d ↦ index d "value" ]

  -- The value, if it is a number.
  unfoldable pub point_value : Json Num → Result Num
  unfolding raw_value as_number
  point_value e = elim (raw_value e) [ err x ↦ err x | ok v ↦ as_number v ]

  -- One round of the collecting loop: a point of the metric is read, any other entry is passed over.
  abbrev round : Result Bool → Result Num → Result (List Num) → Result (List Num)
  round (err x) value rest = err x
  round (ok false) value rest = rest
  round (ok true) (err x) rest = err x
  round (ok true) (ok v) (err x) = err x
  round (ok true) (ok v) (ok vs) = ok (v ∷ vs)

  -- for entry in k6_data: if ... : gap_sizes.append(entry['data']['value'])
  unfoldable pub collect_values : String → List (Json Num) → Result (List Num)
  collect_values metric [] = ok []
  collect_values metric (e ∷ rest) =
      round (is_point metric e) (point_value e) (collect_values metric rest)

  -- sum(1 for e in k6_data if ...)
  unfoldable pub count_points : String → List (Json Num) → Result ℕ
  count_points metric [] = ok 0
  count_points metric (e ∷ rest) = tick (is_point metric e) (count_points metric rest)
