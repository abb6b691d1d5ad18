-- ===== src/Scripts/Points/Total.antt =====
-- Counting and collecting the points of a metric: what the results say of the entries, and when
-- neither raises.
use tinytelegram.Base.{
  ℕ, suc, ◌≡◌, refl, ◌↔◌, ◌⊎◌, String, Bool, true, false, List, [], ◌∷◌, arith, All, inl, inr,
  Bool-cases, ◌&&◌,
}
use tinytelegram.Base.Exec.{ok, Result-cases}
use tinytelegram.Scripts.Python.{
  Json, Line, Members, object, blank, parsed, malformed, load_lines, find, is_text,
}
use tinytelegram.Scripts.Points.{is_point, point_value, collect_values, count_points}

module _ {Num : Type 0} where
  -- No entry is a point of the metric.
  abbrev pub NoPoint : String → List (Json Num) → Type 0
  NoPoint metric es = All (λ e. is_point metric e ≡ ok false) es

  -- Some entry is.
  abbrev pub SomePoint : String → List (Json Num) → Type 0
  SomePoint metric [] = ⊥
  SomePoint metric (e ∷ es) = (is_point metric e ≡ ok true) ⊎ SomePoint metric es

  pub count-zero_iff :
      (metric : String) (es : List (Json Num)) (n : ℕ)
      → count_points metric es ≡ ok n
      → (n ≡ 0) ↔ NoPoint metric es
  unfolding count_points
  count-zero_iff metric [] n h = ground arith
  count-zero_iff metric (e ∷ es) n h = elim (Result-cases (count_points metric es)) [
    | inl (k, counted) ↦ ground (arith, count-zero_iff metric es k counted)
    | inr (x, failed) ↦ absurd (ground arith)
  ]

  pub collect-nothing :
      (metric : String) (es : List (Json Num)) (vs : List Num)
      → collect_values metric es ≡ ok vs
      → NoPoint metric es
      → vs ≡ []
  unfolding collect_values
  collect-nothing metric [] vs h no_point = ground arith
  collect-nothing metric (e ∷ es) vs h no_point = ground (arith, collect-nothing metric es vs)

  pub SomePoint-not_NoPoint :
      (metric : String) (es : List (Json Num)) → SomePoint metric es → ¬ NoPoint metric es
  SomePoint-not_NoPoint metric [] h no_point = h
  SomePoint-not_NoPoint metric (e ∷ es) (inl point) no_point = absurd (ground arith)
  SomePoint-not_NoPoint metric (e ∷ es) (inr more) no_point =
      SomePoint-not_NoPoint metric es more no_point.1

  -- An entry that the script can read: an object, with a number for its
  -- value if it is a point of the metric that is collected.
  abbrev pub IsReadable : String → Json Num → Type 0
  IsReadable metric e =
      ((members : Members Num) × (e ≡ object members))
      × (is_point metric e ≡ ok true → (v : Num) × (point_value e ≡ ok v))

  readable-point :
      (value_metric metric : String) (e : Json Num)
      → IsReadable value_metric e
      → (b : Bool) × (is_point metric e ≡ ok b)
  unfolding is_point
  readable-point value_metric metric e ((members, is_object), _) =
      rw is_object
        (is_text (find "type" members) "Point" && is_text (find "metric" members) metric, refl)

  pub count-total :
      (value_metric metric : String) (es : List (Json Num))
      → All (IsReadable value_metric) es
      → (n : ℕ) × (count_points metric es ≡ ok n)
  unfolding count_points
  count-total value_metric metric [] h = (0, refl)
  count-total value_metric metric (e ∷ es) h =
      let (n, rest) = count-total value_metric metric es h.1 in
      let (b, here) = readable-point value_metric metric e h.0 in
      elim (Bool-cases b) [ inl t ↦ (suc n, rw (here, rest, t)) | inr t ↦ (n, rw (here, rest, t)) ]

  pub collect-total :
      (metric : String) (es : List (Json Num))
      → All (IsReadable metric) es
      → (vs : List Num) × (collect_values metric es ≡ ok vs)
  unfolding collect_values
  collect-total metric [] h = ([], refl)
  collect-total metric (e ∷ es) h =
      let (vs, rest) = collect-total metric es h.1 in
      let (b, here) = readable-point metric metric e h.0 in
      elim (Bool-cases b) [
        | inl t ↦ let (v, value) = h.0.1 (rw t at here) in (v ∷ vs, rw (here, rest, t, value))
        | inr t ↦ (vs, rw (here, rest, t))
      ]

  abbrev pub IsReadableLine : String → Line Num → Type 0
  IsReadableLine metric blank = Unit
  IsReadableLine metric (parsed e) = IsReadable metric e
  IsReadableLine metric malformed = ⊥

  pub load-total :
      (metric : String) (lines : List (Line Num))
      → All (IsReadableLine metric) lines
      → (es : List (Json Num)) × (load_lines lines ≡ ok es) × All (IsReadable metric) es
  unfolding load_lines
  load-total metric [] h = ([], refl, tt)
  load-total metric (blank ∷ lines) h = load-total metric lines h.1
  load-total metric (malformed ∷ lines) h = absurd h.0
  load-total metric (parsed e ∷ lines) h =
      let (es, loaded, all) = load-total metric lines h.1 in (e ∷ es, rw loaded, (h.0, all))
