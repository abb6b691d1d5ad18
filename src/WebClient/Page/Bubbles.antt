-- ===== src/WebClient/Page/Bubbles.antt =====
-- The bubbles of a page that have one id.
use tinytelegram.Base.{
  suc, ◌≤◌, ◌≡◌, refl, arith, String, false, Option, none, some, List, [], ◌∷◌, ◌++◌, ◌==◌,
  if◌then◌else◌, length, eq_iff, Bool-cases, inl, inr,
}
use tinytelegram.WebClient.{Shown}
use tinytelegram.WebClient.Page.{Element, bubble, system, draw, remove_bubble}

-- In the order of the page.
unfoldable pub bubbles_of : String → List Element → List Element
bubbles_of k [] = []
bubbles_of k (system notice ∷ rest) = bubbles_of k rest
bubbles_of k (bubble id class_name content meta ∷ rest) =
    let others = bubbles_of k rest in
    if id == k then bubble id class_name content meta ∷ others else others

-- The lowest on the page.
abbrev pub newest : List Element → Option Element
newest [] = none
newest (e ∷ []) = some e
newest (e ∷ f ∷ rest) = newest (f ∷ rest)

pub newest-append : (p : List Element) (e : Element) → newest (p ++ (e ∷ [])) ≡ some e
newest-append [] e = refl
newest-append (f ∷ []) e = refl
newest-append (f ∷ g ∷ rest) e = newest-append (g ∷ rest) e

pub bubbles-append :
    (k : String) (p q : List Element) → bubbles_of k (p ++ q) ≡ bubbles_of k p ++ bubbles_of k q
unfolding bubbles_of
bubbles-append k [] q = refl
bubbles-append k (system notice ∷ rest) q = bubbles-append k rest q
bubbles-append k (bubble id class_name content meta ∷ rest) q =
    ground (arith, bubbles-append k rest q)

pub bubbles-draw :
    (k user_id id : String) (msg : Shown)
    → bubbles_of k (draw user_id id msg ∷ []) ≡ (if id == k then draw user_id id msg ∷ [] else [])
unfolding bubbles_of draw
bubbles-draw k user_id id msg = refl

pub bubbles-remove_other :
    (k id : String) (p : List Element)
    → (id == k) ≡ false
    → bubbles_of k (remove_bubble id p) ≡ bubbles_of k p
unfolding bubbles_of remove_bubble
bubbles-remove_other k id [] other = refl
bubbles-remove_other k id (system notice ∷ rest) other = bubbles-remove_other k id rest other
bubbles-remove_other k id (bubble i class_name content meta ∷ rest) other =
    ground (arith, bubbles-remove_other k id rest other, eq_iff i id, eq_iff i k, eq_iff id k)

pub bubbles-remove_only :
    (k : String) (p : List Element)
    → length (bubbles_of k p) ≤ 1
    → bubbles_of k (remove_bubble k p) ≡ []
unfolding bubbles_of remove_bubble
bubbles-remove_only k [] only = refl
bubbles-remove_only k (system notice ∷ rest) only = bubbles-remove_only k rest only
bubbles-remove_only k (bubble i class_name content meta ∷ rest) only = elim (Bool-cases (i == k)) [
  | inl same ↦ rw same (none_left (bubbles_of k rest) (rw same at only))
  | inr other ↦ rw (other, other) (bubbles-remove_only k rest (rw other at only))
]
  where
    none_left : (l : List Element) → suc (length l) ≤ 1 → l ≡ []
    none_left [] h = refl
    none_left (e ∷ l) h = absurd (omega arith)
