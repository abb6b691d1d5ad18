-- ===== src/MessageService/Sync/After.antt =====
-- What a user has missed from a higher number on, and after a page.
use mathlib.Core.List.{append-nil}
use tinytelegram.Base.{
  ℕ, zero, suc, ◌≤◌, ◌<◌, ◌≡◌, refl, ap, sym, ◌∙◌, String, Bool, ◌&&◌, List, [], ◌∷◌, ◌++◌, arith,
  ltb, filter, take, drop, All, Bool-cases, inl, inr,
}
use tinytelegram.Base.Int.{pos}
use tinytelegram.MessageService.Schema.{Row}
use tinytelegram.MessageService.DiffQuery.{DiffRow, is_missed, project, order_by_pts}
use tinytelegram.MessageService.Sync.Missed.{
  IsNewestFirst, missed, missed-cons, IsAscending, missed-IsAscending, All-concat,
}

module _ {ℓ} {A : Type ℓ} where
  filter-append : (p : A → Bool) (xs ys : List A) → filter p (xs ++ ys) ≡ filter p xs ++ filter p ys
  filter-append p [] ys = refl
  filter-append p (x ∷ xs) ys = elim (Bool-cases (p x)) [
    | inl e ↦ rw e (ap (λ l. x ∷ l) (filter-append p xs ys))
    | inr e ↦ rw e (filter-append p xs ys)
  ]

missed-step :
    (u : String) (c q : ℕ) (r : Row)
    → c ≤ q
    → is_missed u (pos q) r ≡ (is_missed u (pos c) r && ltb q (project u r).pts)
unfolding is_missed project
missed-step u c q r le = ground arith

-- From a higher number on, the client has missed those of its messages that are above it.
missed-filter :
    (u : String) (c q : ℕ) (table : List Row)
    → c ≤ q
    → IsNewestFirst u table
    → missed u q table ≡ filter (λ d. ltb q d.pts) (missed u c table)
missed-filter u c q [] le h = unfold missed order_by_pts in refl
missed-filter u c q (r ∷ table) le h =
    let rest = missed-filter u c q table le h.1 in
    let l = missed u c table in
    elim (Bool-cases (is_missed u (pos c) r)) [
      | inr e ↦
          rw (missed-cons u q r table h, missed-cons u c r table h, missed-step u c q r le, e) rest
      | inl e ↦ elim (Bool-cases (ltb q (project u r).pts)) [
        | inl f ↦
            rw
              (
                missed-cons u q r table h,
                missed-cons u c r table h,
                missed-step u c q r le,
                e,
                f,
                filter-append (λ d. ltb q d.pts) l (project u r ∷ []),
                f,
              )
              (ap (λ m. m ++ (project u r ∷ [])) rest)
        | inr f ↦
            rw
              (
                missed-cons u q r table h,
                missed-cons u c r table h,
                missed-step u c q r le,
                e,
                f,
                filter-append (λ d. ltb q d.pts) l (project u r ∷ []),
                f,
              )
              (rest ∙ sym (append-nil (filter (λ d. ltb q d.pts) l)))
      ]
    ]

-- The number after the last row of a page.
abbrev pub last_pts : ℕ → List DiffRow → ℕ
last_pts c [] = c
last_pts c (d ∷ l) = last_pts d.pts l

last_above :
    (n : ℕ) (d : DiffRow) (l : List DiffRow)
    → IsAscending (d ∷ l)
    → d.pts ≤ last_pts d.pts (take n l)
last_above zero d l h = omega arith
last_above (suc n) d [] h = omega arith
last_above (suc n) d (e ∷ l) h = omega (arith, last_above n e l h.1, h.0.0)

filter-above : (q : ℕ) (l : List DiffRow) → All (λ e. q < e.pts) l → filter (λ e. ltb q e.pts) l ≡ l
filter-above q [] h = refl
filter-above q (e ∷ l) h = ground (arith, filter-above q l h.1)

filter-drop :
    (n : ℕ) (d : DiffRow) (l : List DiffRow)
    → IsAscending (d ∷ l)
    → filter (λ e. ltb (last_pts d.pts (take n l)) e.pts) (d ∷ l) ≡ drop n l
filter-drop zero d l h = ground (arith, filter-above d.pts l h.0)
filter-drop (suc n) d [] h = ground arith
filter-drop (suc n) d (e ∷ l) h = ground (arith, filter-drop n e l h.1, last_above n e l h.1, h.0.0)

missed-above :
    (u : String) (c : ℕ) (table : List Row)
    → IsNewestFirst u table
    → All (λ d. c < d.pts) (missed u c table)
unfolding is_missed project
missed-above u c [] h = unfold missed order_by_pts in tt
missed-above u c (r ∷ table) h =
    let rest = missed-above u c table h.1 in
    elim (Bool-cases (is_missed u (pos c) r)) [
      | inl e ↦
          rw (missed-cons u c r table h, e)
            (All-concat (λ d. c < d.pts) (missed u c table) (project u r) rest (ground arith))
      | inr e ↦ rw (missed-cons u c r table h, e) rest
    ]

-- After a page, the client has missed the rows that the page left.
pub missed-drop :
    (u : String) (c n : ℕ) (d : DiffRow) (l : List DiffRow) (table : List Row)
    → IsNewestFirst u table
    → missed u c table ≡ d ∷ l
    → missed u (last_pts d.pts (take n l)) table ≡ drop n l
missed-drop u c n d l table h e =
    let asc : IsAscending (d ∷ l) = rw e at (missed-IsAscending u c table h) in
    let above : All (λ d. c < d.pts) (d ∷ l) = rw e at (missed-above u c table h) in
    let high : c ≤ last_pts d.pts (take n l) = omega (arith, last_above n d l asc, above.0) in
    missed-filter u c (last_pts d.pts (take n l)) table high h
    ∙ ap (λ m. filter (λ e. ltb (last_pts d.pts (take n l)) e.pts) m) e
    ∙ filter-drop n d l asc
