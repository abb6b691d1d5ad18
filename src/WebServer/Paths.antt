-- ===== src/WebServer/Paths.antt =====
-- The path that the server makes of a request.
use Prim.Native.String.{◌++◌ as ◌<>◌}
use text.Mathlib.TextLemmas.{append-nil}
use tinytelegram.Base.{
  ◌≡◌, ◌≢◌, refl, ap, ◌∙◌, String, false, ◌||◌, ◌==◌, List, [], ◌∷◌, ◌++◌, All, Bool-cases, inl,
  inr, eq_iff,
}
use tinytelegram.Base.Text.{split_slash, split_slash-join, split_slash-Parts, split_slash-All}
use tinytelegram.WebServer.{
  parent, enter, walk, ends_empty, normalize, join, join_names, to_text, public_dir, target,
  file_path,
}

-- A part that is a name of its own.
abbrev IsName : String → Type 0
IsName part =
    (split_slash part ≡ part ∷ [])
    × ((part == "" || part == ".") ≡ false)
    × ((part == "..") ≡ false)

pub walk-append : (at xs ys : List String) → walk at (xs ++ ys) ≡ walk (walk at xs) ys
unfolding walk
walk-append at [] ys = refl
walk-append at (x ∷ xs) ys = walk-append (enter at x) xs ys

enter-name : (at : List String) (part : String) → IsName part → enter at part ≡ part ∷ at
unfolding enter
enter-name at part (whole, low, up) = rw (low, up) refl

enter-All :
    (at : List String) (part : String)
    → split_slash part ≡ part ∷ []
    → All IsName at
    → All IsName (enter at part)
unfolding enter
enter-All at part whole h = elim (Bool-cases (part == "" || part == ".")) [
  | inl low ↦ rw low h
  | inr low ↦ elim (Bool-cases (part == "..")) [
    | inl up ↦ rw (low, up) (above at h)
    | inr up ↦ rw (low, up) ((whole, low, up), h)
  ]
]
  where
    above : (at : List String) → All IsName at → All IsName (parent at)
    above [] h = tt
    above (name ∷ at) h = h.1

walk-All :
    (at parts : List String)
    → All (λ part. split_slash part ≡ part ∷ []) parts
    → All IsName at
    → All IsName (walk at parts)
unfolding walk
walk-All at [] whole h = h
walk-All at (part ∷ parts) whole h =
    walk-All (enter at part) parts whole.1 (enter-All at part whole.0 h)

-- Names that are written out and read again.
names_back :
    (names : List String) → All IsName names → walk [] (split_slash (join_names names)) ≡ names
unfolding walk enter split_slash
names_back [] h = refl
names_back (name ∷ above) h =
    ap (walk []) (split_slash-join (join_names above) name)
    ∙ walk-append [] (split_slash (join_names above)) (split_slash name)
    ∙ ap (λ at. walk at (split_slash name)) (names_back above h.1)
    ∙ ap (walk above) h.0.0
    ∙ enter-name above name h.0

pub ends_empty-append :
    (xs : List String) (y : String) (ys : List String)
    → ends_empty (xs ++ (y ∷ ys)) ≡ ends_empty (y ∷ ys)
unfolding ends_empty
ends_empty-append [] y ys = refl
ends_empty-append (x ∷ []) y ys = refl
ends_empty-append (x ∷ next ∷ xs) y ys = ends_empty-append (next ∷ xs) y ys

-- Two paths with a slash between them: the second one is walked from where the first one ends, and
-- has the last slash.
pub normalize-join :
    (s t : String)
    → normalize (s <> ("/" <> t)) ≡ record {
      names = walk (normalize s).names (split_slash t);
      slash_ended = (normalize t).slash_ended;
    }
unfolding normalize
normalize-join s t =
    let (part, parts, e) = split_slash-Parts t in
    ap (λ l. record { names = walk [] l; slash_ended = ends_empty l }) (split_slash-join s t)
    ∙ rw
        (
          walk-append [] (split_slash s) (split_slash t),
          e,
          ends_empty-append (split_slash s) part parts,
        )
        refl

pub public_dir_lem :
    (dirname : String)
    → public_dir dirname
      ≡ record { names = "public" ∷ (normalize dirname).names; slash_ended = false }
unfolding public_dir join walk enter split_slash normalize ends_empty
public_dir_lem dirname = normalize-join dirname "public"

-- The text of the directory leads back to it.
public_back :
    (dirname : String)
    → (normalize (to_text (public_dir dirname))).names ≡ (public_dir dirname).names
unfolding to_text normalize
public_back dirname =
    let names = walk [] (split_slash dirname) in
    let proper = walk-All [] (split_slash dirname) (split_slash-All dirname) tt in
    rw (public_dir_lem dirname) (
      ap (λ s. walk [] (split_slash s)) (append-nil (join_names ("public" ∷ names)))
      ∙ names_back ("public" ∷ names) ((unfold split_slash in refl, refl, refl), proper))

pub file_path_lem :
    (dirname url : String)
    → target url ≢ ""
    → file_path dirname url ≡ record {
      names = walk (public_dir dirname).names (split_slash (target url));
      slash_ended = (normalize (target url)).slash_ended;
    }
unfolding file_path join
file_path_lem dirname url h = elim (Bool-cases (target url == "")) [
  | inl e ↦ absurd (h ((eq_iff (target url) "").0 e))
  | inr e ↦
      rw (e, normalize-join (to_text (public_dir dirname)) (target url), public_back dirname) refl
]
