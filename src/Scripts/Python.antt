-- ===== src/Scripts/Python.antt =====
-- What the scripts use of Python: JSON values, exceptions as texts, and floating-point numbers, which
-- are a parameter.
use tinytelegram.Base.{
  ℕ, ◌≤◌, ◌<◌, ◌/◌, ◌≡◌, ◌⊎◌, String, Bool, true, false, Option, none, some, List, [], ◌∷◌, ◌==◌,
  if◌then◌else◌,
}
use tinytelegram.Base.Exec.{Result, ok, err}

-- Floats with what the scripts do to them. `decimal 152 2` is the literal 1.52, `tenths x 7` is
-- `x*0.7`. `show` and `show_int` are `str`, and `fmt d x` is `f'{x:.{d}f}'`;
-- `percent p n` is `int(n * 0.pp)`, which lies below `n` and grows with `p`.
pub record Floats : Type 1 where
  pub Num : Type 0
  pub zero_num : Num
  pub add : Num → Num → Num
  pub minus : Num → Num → Num
  pub over : Num → ℕ → Num
  pub decimal : ℕ → ℕ → Num
  pub ratio : ℕ → ℕ → Num
  pub tenths : Num → ℕ → Num
  pub at_most : Num → Num → Bool
  pub show : Num → String
  pub show_int : ℕ → String
  pub fmt : ℕ → Num → String
  pub percent : ℕ → ℕ → ℕ
  pub at_most_total : (x y : Num) → (at_most x y ≡ true) ⊎ (at_most y x ≡ true)
  pub at_most_trans : (x y z : Num) → at_most x y ≡ true → at_most y z ≡ true → at_most x z ≡ true
  pub percent_lt : (p n : ℕ) → p < 100 → 1 ≤ n → percent p n < n
  pub percent_mono : (p q n : ℕ) → p ≤ q → percent p n ≤ percent q n
  pub percent_half : (n : ℕ) → percent 50 n ≡ n / 2

-- A value that `json.loads` returns; a number may be an int, a float or a bool.
mutual
  pub data Json (Num : Type 0) : Type 0 where
    null : Json Num
    number : Num → Json Num
    string : String → Json Num
    array : Items Num → Json Num
    object : Members Num → Json Num

  pub data Items (Num : Type 0) : Type 0 where
    nil : Items Num
    item : Json Num → Items Num → Items Num

  pub data Members (Num : Type 0) : Type 0 where
    end : Members Num
    member : String → Json Num → Members Num → Members Num

-- A line of a file of JSON lines, as `line.strip()` and `json.loads` see it.
pub data Line (Num : Type 0) : Type 0 where
  blank : Line Num
  parsed : Json Num → Line Num
  malformed : Line Num

module _ {Num : Type 0} where
  abbrev pub find : String → Members Num → Option (Json Num)
  find k end = none
  find k (member j v rest) = if j == k then some v else find k rest

  -- value.get(key)
  unfoldable pub get : Json Num → String → Result (Option (Json Num))
  get (object members) k = ok (find k members)
  get null k = err "AttributeError"
  get (number x) k = err "AttributeError"
  get (string s) k = err "AttributeError"
  get (array xs) k = err "AttributeError"

  abbrev or_key_error : Option (Json Num) → Result (Json Num)
  or_key_error none = err "KeyError"
  or_key_error (some v) = ok v

  -- value[key], with a text for the key
  unfoldable pub index : Json Num → String → Result (Json Num)
  index (object members) k = or_key_error (find k members)
  index null k = err "TypeError"
  index (number x) k = err "TypeError"
  index (string s) k = err "TypeError"
  index (array xs) k = err "TypeError"

  -- value == text
  unfoldable pub is_text : Option (Json Num) → String → Bool
  is_text (some (string s)) t = s == t
  is_text (some null) t = false
  is_text (some (number x)) t = false
  is_text (some (array xs)) t = false
  is_text (some (object members)) t = false
  is_text none t = false

  -- [json.loads(line) for line in f if line.strip()]
  unfoldable pub load_lines : List (Line Num) → Result (List (Json Num))
  load_lines [] = ok []
  load_lines (blank ∷ rest) = load_lines rest
  load_lines (malformed ∷ rest) = err "JSONDecodeError"
  load_lines (parsed v ∷ rest) = elim (load_lines rest) [
    | ok values ↦ ok (v ∷ values)
    | err e ↦ err e
  ]
