-- ===== src/WebServer/Below.antt =====
-- Requests that are answered from the directory of the web client.
use mathlib.Core.Bool.{false≢true}
use tinytelegram.Base.{
  ℕ, zero, suc, ◌≡◌, ◌≢◌, refl, ap, ◌∙◌, String, Bool, true, false, ◌||◌, ◌==◌, Option, none, some,
  List, [], ◌∷◌, ◌++◌, arith, length, Bool-cases, ◌⊎◌, inl, inr, if◌then◌else◌,
}
use tinytelegram.Base.Exec.{Result}
use tinytelegram.Base.Text.{split_slash}
use tinytelegram.WebServer.{parent, enter, walk, normalize, serve_file, public_dir, target, handle}
use tinytelegram.WebServer.Paths.{file_path_lem}

abbrev above_depth : ℕ → Option ℕ
above_depth zero = none
above_depth (suc e) = some e

-- How far below its start a path stands after one part, if not above it.
abbrev pub next_depth : ℕ → String → Option ℕ
next_depth d part =
    if part == "" || part == "."
    then some d
    else (if part == ".." then above_depth d else some (suc d))

-- No beginning of the path has more ".." than names.
abbrev pub stays : ℕ → List String → Bool
stays d [] = true
stays d (part ∷ parts) = elim (next_depth d part) [ none ↦ false | some e ↦ stays e parts ]

parent-below :
    (l dir : List String) (e : ℕ)
    → above_depth (length l) ≡ some e
    → (parent (l ++ dir) ≡ parent l ++ dir) × (length (parent l) ≡ e)
parent-below [] dir e h = absurd (ground arith)
parent-below (name ∷ l) dir e h = (refl, ground arith)

enter-below :
    (l dir : List String) (part : String) (e : ℕ)
    → next_depth (length l) part ≡ some e
    → (enter (l ++ dir) part ≡ enter l part ++ dir) × (length (enter l part) ≡ e)
unfolding enter
enter-below l dir part e h = elim (Bool-cases (part == "" || part == ".")) [
  | inl low ↦ rw low (refl, ground arith)
  | inr low ↦ elim (Bool-cases (part == "..")) [
    | inr up ↦ rw (low, up) (refl, ground arith)
    | inl up ↦ rw (low, up) (parent-below l dir e (rw (low, up) at h))
  ]
]

Option-cases : (o : Option ℕ) → (o ≡ none) ⊎ ((e : ℕ) × (o ≡ some e))
Option-cases none = inl refl
Option-cases (some e) = inr (e, refl)

walk-below :
    (l dir parts : List String)
    → stays (length l) parts ≡ true
    → walk (l ++ dir) parts ≡ walk l parts ++ dir
unfolding walk
walk-below l dir [] h = refl
walk-below l dir (part ∷ parts) h = elim (Option-cases (next_depth (length l) part)) [
  | inl e ↦ absurd (ground (arith, e))
  | inr (n, e) ↦
      let (same, deep) = enter-below l dir part n e in
      ap (λ at. walk at parts) same
      ∙ walk-below (enter l part) dir parts (rw deep (rw (stays, e) at h))
]

target-nonempty : (url : String) → url ≢ "" → target url ≢ ""
target-nonempty url h = elim (Bool-cases (url == "/")) [
  | inl e ↦ rw e (λ same. false≢true (ap (λ s. s == "") same))
  | inr e ↦ rw e h
]

-- A request, other than an empty one, that never goes above its own names is answered from the file
-- below the directory at which they end.
pub served_below :
    (read_file : String → Result String) (dirname url : String)
    → url ≢ ""
    → stays 0 (split_slash (target url)) ≡ true
    → handle read_file dirname url
      ≡ serve_file read_file (record {
        names = (normalize (target url)).names ++ (public_dir dirname).names;
        slash_ended = (normalize (target url)).slash_ended;
      })
unfolding handle normalize
served_below read_file dirname url nonempty h = ap (serve_file read_file) (
    file_path_lem dirname url (target-nonempty url nonempty)
    ∙ ap (λ l. record { names = l; slash_ended = (normalize (target url)).slash_ended })
        (walk-below [] (public_dir dirname).names (split_slash (target url)) h))
