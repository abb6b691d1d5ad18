-- ===== src/Base/Dict.antt =====
-- Maps from texts: Go's `map[string]V` and JavaScript's `Map`. An update keeps the place of its
-- key, and a new key goes to the end, which is the order in which JavaScript iterates.
use Prim.Native.String.{String}
use mathlib.Core.Path.{◌≡◌, refl}
use mathlib.Core.Option.{Option, none, some}
use mathlib.Core.List.{List, [], ◌∷◌}
use native.Mathlib.Omega.{arith}
use text.Mathlib.Text.{◌==◌}
use text.Mathlib.TextEquality.{eq_iff}
use tinytelegram.Base.Tests.{if◌then◌else◌}

pub record Binding {ℓ} (V : Type ℓ) : Type ℓ where
  pub key : String
  pub value : V

abbrev pub Dict {ℓ} : Type ℓ → Type ℓ
Dict V = List (Binding V)

module _ {ℓ} {V : Type ℓ} where
  unfoldable pub get : Dict V → String → Option V
  get [] key = none
  get (b ∷ rest) key = if key == b.key then some b.value else get rest key

  unfoldable pub put : Dict V → String → V → Dict V
  put [] key v = record { key = key; value = v } ∷ []
  put (b ∷ rest) key v =
      if key == b.key then record { key = key; value = v } ∷ rest else b ∷ put rest key v

  unfoldable pub delete : Dict V → String → Dict V
  delete [] key = []
  delete (b ∷ rest) key =
      let others = delete rest key in if key == b.key then others else b ∷ others

  pub get-put :
      (d : Dict V) (key : String) (v : V) (other : String)
      → get (put d key v) other ≡ (if other == key then some v else get d other)
  unfolding get put
  get-put [] key v other = refl
  get-put (b ∷ rest) key v other =
      ground
        (arith, get-put rest key v other, eq_iff other key, eq_iff key b.key, eq_iff other b.key)

  pub get-delete :
      (d : Dict V) (key other : String)
      → get (delete d key) other ≡ (if other == key then none else get d other)
  unfolding get delete
  get-delete [] key other = ground arith
  get-delete (b ∷ rest) key other =
      ground
        (arith, get-delete rest key other, eq_iff other key, eq_iff key b.key, eq_iff other b.key)

pub ruleset dict_laws = (get-put, get-delete)
