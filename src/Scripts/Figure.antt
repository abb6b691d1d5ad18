-- ===== src/Scripts/Figure.antt =====
-- A figure as the list of the calls that draw it: matplotlib is not modelled, so what a script does
-- with it is the sequence of its calls with their arguments.
use tinytelegram.Base.{ℕ, String, List, [], ◌∷◌}

-- A cell of a CSV file: empty, a number, or another text.
pub data Cell (Num : Type 0) : Type 0 where
  empty : Cell Num
  value : Num → Cell Num
  word : String → Cell Num

-- An argument: a text, an int, a decimal literal (`dec 7 1` is 0.7), computed numbers, a column of
-- cells, times in seconds, a keyword argument, a list of ints, a negative literal, or the middle of the bar with a
-- given index (`bar.get_x() + bar.get_width()/2` for "x").
pub data Arg (Num : Type 0) : Type 0 where
  text : String → Arg Num
  int : ℕ → Arg Num
  dec : ℕ → ℕ → Arg Num
  flag : String → Arg Num
  num : Num → Arg Num
  nums : List Num → Arg Num
  cells : List (Cell Num) → Arg Num
  texts : List String → Arg Num
  decs : List (ℕ × ℕ) → Arg Num
  times : List ℕ → Arg Num
  kw : String → Arg Num → Arg Num
  pair : Arg Num → Arg Num → Arg Num
  ints : List ℕ → Arg Num
  neg : Arg Num → Arg Num
  mid_bar : String → ℕ → Arg Num

-- target.method(args)
pub record Call (Num : Type 0) : Type 0 where
  pub target : String
  pub method : String
  pub args : List (Arg Num)

module _ {Num : Type 0} where
  abbrev pub call : String → String → List (Arg Num) → Call Num
  call target method args = record { target = target; method = method; args = args }

  abbrev pub label : String → Arg Num
  label s = kw "label" (text s)

  abbrev pub color : String → Arg Num
  color s = kw "color" (text s)

  -- set_xlabel, set_ylabel, set_title
  abbrev pub axis_titles : String → String → String → String → List (Call Num)
  axis_titles ax x y title =
      call ax "set_xlabel" (text x ∷ [])
      ∷ call ax "set_ylabel" (text y ∷ [])
      ∷ call ax "set_title" (text title ∷ [])
      ∷ []

  -- legend(); grid(True, alpha=0.3)
  abbrev pub legend_and_grid : String → List (Call Num)
  legend_and_grid ax =
      call ax "legend" [] ∷ call ax "grid" (flag "True" ∷ kw "alpha" (dec 3 1) ∷ []) ∷ []
