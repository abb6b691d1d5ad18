-- ===== src/WebClient/Page/Shows.antt =====
-- What the page shows of the messages that the client holds, from a page load on.
use mathlib.Core.List.{append-nil}
use tinytelegram.Base.{
  ◌≤◌, ◌≡◌, ◌⊎◌, refl, arith, String, Bool, true, false, Option, none, some, List, [], ◌∷◌, ◌++◌,
  ◌==◌, length, eq_iff, eq_refl, Bool-cases, All-append, inl, inr, ◌∙◌, All,
}
use tinytelegram.Base.Text.{flip}
use tinytelegram.Base.Dict.{Dict, get, put, delete, get-put, get-delete}
use tinytelegram.WebClient.{Shown}
use tinytelegram.WebClient.Page.{Element, bubble, system, Piece, draw, remove_bubble}
use tinytelegram.WebClient.Page.Bubbles.{
  bubbles_of, newest, newest-append, bubbles-append, bubbles-draw, bubbles-remove_other,
  bubbles-remove_only,
}

abbrev pub drawn : String → String → Option Shown → Option Element
drawn user_id k none = none
drawn user_id k (some msg) = some (draw user_id k msg)

-- What came last under an id is shown as the client has it; or the client has had it since the page
-- load, and nothing is shown.
abbrev pub IsShown : String → Dict Shown → Dict Shown → List Element → String → Type 0
IsShown user_id loaded messages page k =
    (newest (bubbles_of k page) ≡ drawn user_id k (get messages k))
    ⊎ ((bubbles_of k page ≡ []) × (get messages k ≡ get loaded k))

pub bubbles-system :
    (k : String) (p : List Element) (notice : List Piece)
    → bubbles_of k (p ++ (system notice ∷ [])) ≡ bubbles_of k p
unfolding bubbles_of
bubbles-system k [] notice = refl
bubbles-system k (system n ∷ rest) notice = bubbles-system k rest notice
bubbles-system k (bubble id class_name content meta ∷ rest) notice =
    rw (bubbles-system k rest notice)

pub bubbles-another :
    (k user_id id : String) (msg : Shown) (p : List Element)
    → (id == k) ≡ false
    → bubbles_of k (p ++ (draw user_id id msg ∷ [])) ≡ bubbles_of k p
bubbles-another k user_id id msg p other =
    bubbles-append k p (draw user_id id msg ∷ [])
    ∙ rw (bubbles-draw k user_id id msg, other) (append-nil (bubbles_of k p))

bubbles-same :
    (user_id id : String) (msg : Shown) (p : List Element)
    → bubbles_of id (p ++ (draw user_id id msg ∷ []))
      ≡ bubbles_of id p ++ (draw user_id id msg ∷ [])
bubbles-same user_id id msg p =
    bubbles-append id p (draw user_id id msg ∷ [])
    ∙ rw (bubbles-draw id user_id id msg, eq_refl id) refl

no_bubble : (l : List Element) → newest l ≡ none → l ≡ []
no_bubble [] h = refl
no_bubble (e ∷ []) h = cc
no_bubble (e ∷ f ∷ rest) h = cc (no_bubble (f ∷ rest) h)

module _ (is_temp : String → Bool) (loaded : Dict Shown) where
  -- Temporary ids are shown once at most, and only those wait for an acknowledgement.
  pub record Follows (user_id : String) (messages : Dict Shown) (pending : List String)
      (page : List Element) : Type 0 where
    pub shown : (k : String) → IsShown user_id loaded messages page k
    pub once : (k : String) → is_temp k ≡ true → length (bubbles_of k page) ≤ 1
    pub waiting : All (λ t. is_temp t ≡ true) pending

  module _ (u : String) (d : Dict Shown) (ids : List String) (p : List Element) where
    pub system-Follows :
        (notice : List Piece) → Follows u d ids p → Follows u d ids (p ++ (system notice ∷ []))
    system-Follows notice h = record {
      shown = λ k. rw (bubbles-system k p notice) (h.shown k);
      once = λ k temp. rw (bubbles-system k p notice) (h.once k temp);
      waiting = h.waiting;
    }

    put-IsShown :
        (id : String) (msg : Shown) (k : String)
        → IsShown u loaded d p k
        → IsShown u loaded (put d id msg) (p ++ (draw u id msg ∷ [])) k
    put-IsShown id msg k h = elim (Bool-cases (id == k)) [
      | inl same ↦ rw (← ((eq_iff id k).0 same)) (
          inl (
            rw
              (
                bubbles-same u id msg p,
                newest-append (bubbles_of id p) (draw u id msg),
                get-put d id msg id,
                eq_refl id,
              )
              refl))
      | inr other ↦ rw (bubbles-another k u id msg p other, get-put d id msg k, flip id k other) h
    ]

    delete-IsShown :
        (t k : String)
        → length (bubbles_of t p) ≤ 1
        → IsShown u loaded d p k
        → IsShown u loaded (delete d t) (remove_bubble t p) k
    delete-IsShown t k only h = elim (Bool-cases (t == k)) [
      | inl same ↦
          rw (← ((eq_iff t k).0 same))
            (inl (rw (bubbles-remove_only t p only, get-delete d t t, eq_refl t) refl))
      | inr other ↦ rw (bubbles-remove_other k t p other, get-delete d t k, flip t k other) h
    ]

    put_once :
        (id : String) (msg : Shown) (k : String)
        → (is_temp id ≡ false) ⊎ (bubbles_of id p ≡ [])
        → is_temp k ≡ true
        → length (bubbles_of k p) ≤ 1
        → length (bubbles_of k (p ++ (draw u id msg ∷ []))) ≤ 1
    put_once id msg k new temp h = elim (Bool-cases (id == k)) [
      | inl same ↦ rw (← ((eq_iff id k).0 same)) (elim new [
        | inl not_temp ↦ cc ((eq_iff id k).0 same)
        | inr unseen ↦ rw (bubbles-same u id msg p, unseen) (omega arith)
      ])
      | inr other ↦ rw (bubbles-another k u id msg p other) h
    ]

    remove_once :
        (t k : String)
        → length (bubbles_of t p) ≤ 1
        → length (bubbles_of k p) ≤ 1
        → length (bubbles_of k (remove_bubble t p)) ≤ 1
    remove_once t k only h = elim (Bool-cases (t == k)) [
      | inl same ↦ rw (← ((eq_iff t k).0 same), bubbles-remove_only t p only) (omega arith)
      | inr other ↦ rw (bubbles-remove_other k t p other) h
    ]

    -- A message comes under an id that is not temporary, or that has no bubble.
    pub put-Follows :
        (id : String) (msg : Shown)
        → (is_temp id ≡ false) ⊎ (bubbles_of id p ≡ [])
        → Follows u d ids p
        → Follows u (put d id msg) ids (p ++ (draw u id msg ∷ []))
    put-Follows id msg new h = record {
      shown = λ k. put-IsShown id msg k (h.shown k);
      once = λ k temp. put_once id msg k new temp (h.once k temp);
      waiting = h.waiting;
    }

    pub delete-Follows :
        (t : String)
        → is_temp t ≡ true
        → Follows u d ids p
        → Follows u (delete d t) ids (remove_bubble t p)
    delete-Follows t temp h = record {
      shown = λ k. delete-IsShown t k (h.once t temp) (h.shown k);
      once = λ k temp'. remove_once t k (h.once t temp) (h.once k temp');
      waiting = h.waiting;
    }

  pub fewer-Follows :
      (u : String) (d : Dict Shown) (t : String) (ids : List String) (p : List Element)
      → Follows u d (t ∷ ids) p
      → Follows u d ids p
  fewer-Follows u d t ids p h = record { shown = h.shown; once = h.once; waiting = h.waiting.1 }

  pub more-Follows :
      (u : String) (d : Dict Shown) (t : String) (ids : List String) (p : List Element)
      → is_temp t ≡ true
      → Follows u d ids p
      → Follows u d (ids ++ (t ∷ [])) p
  more-Follows u d t ids p temp h = record {
    shown = h.shown;
    once = h.once;
    waiting = All-append (λ t. is_temp t ≡ true) ids (t ∷ []) h.waiting (temp, tt);
  }

  pub unseen :
      (u : String) (d : Dict Shown) (ids : List String) (p : List Element) (t : String)
      → get d t ≡ none
      → Follows u d ids p
      → bubbles_of t p ≡ []
  unseen u d ids p t unused h = elim (h.shown t) [
    | inl last ↦ no_bubble (bubbles_of t p) (last ∙ rw unused refl)
    | inr (absent, _) ↦ absent
  ]
