-- ===== src/Scripts/LoadTests/Output.antt =====
-- The lines that k6 writes, as the Python scripts read them.
use tinytelegram.Base.{
  ◌≡◌, refl, ◌⊎◌, inl, inr, String, false, List, [], ◌∷◌, ◌==◌, All, In, All_In, arith,
}
use tinytelegram.Base.Exec.{ok}
use tinytelegram.Scripts.Python.{Json, Members, object}
use tinytelegram.Scripts.Points.{is_point, point_value}
use tinytelegram.Scripts.Points.Total.{NoPoint, IsReadable}
use tinytelegram.Scripts.LoadTests.{Sample}

-- k6 run --out json: the entry that a sample becomes is a point of its metric, with a number.
pub record Output (Num : Type 0) : Type 0 where
  pub entry : Sample → Members Num
  pub entry_point : (s : Sample) (m : String) → is_point m (object (entry s)) ≡ ok (s.metric == m)
  pub entry_value : (s : Sample) → (v : Num) × (point_value (object (entry s)) ≡ ok v)

module _ {Num : Type 0} (O : Output Num) (samples : List Sample) (names : List String) where
  -- An entry comes from a sample, or k6 writes it on its own, and then it is no point of a metric
  -- with one of the names.
  abbrev pub Written : Json Num → Type 0
  Written e =
      (members : Members Num) × (e ≡ object members)
      × (((s : Sample) × In s samples × (O.entry s ≡ members))
          ⊎ All (λ m. is_point m e ≡ ok false) names)

  -- No sample is of the metric.
  abbrev pub Unused : String → Type 0
  Unused metric = All (λ (s : Sample). (s.metric == metric) ≡ false) samples

  Written-no_point :
      (metric : String) (e : Json Num)
      → Unused metric
      → In metric names
      → Written e
      → is_point metric e ≡ ok false
  Written-no_point metric e unused i (members, is_object, inr own) = All_In _ names metric own i
  Written-no_point metric e unused i (members, is_object, inl (s, from, entry)) =
      rw (is_object, ← entry, O.entry_point s metric)
        (rw (All_In (λ (t : Sample). (t.metric == metric) ≡ false) samples s unused from) refl)

  pub NoPoint-Written :
      (metric : String) (es : List (Json Num))
      → Unused metric
      → In metric names
      → All Written es
      → NoPoint metric es
  NoPoint-Written metric [] unused i h = tt
  NoPoint-Written metric (e ∷ es) unused i h =
      (Written-no_point metric e unused i h.0, NoPoint-Written metric es unused i h.1)

  pub IsReadable-Written :
      (metric : String) (es : List (Json Num))
      → Unused metric
      → In metric names
      → All Written es
      → All (IsReadable metric) es
  IsReadable-Written metric [] unused i h = tt
  IsReadable-Written metric (e ∷ es) unused i h =
      let no_point = Written-no_point metric e unused i h.0 in
      (((h.0.0, h.0.1), λ point. absurd (ground arith)), IsReadable-Written metric es unused i h.1)
