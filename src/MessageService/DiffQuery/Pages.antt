-- ===== src/MessageService/DiffQuery/Pages.antt =====
-- The pages that the SELECT of `GetDiff` returns, against the rows that the client has missed.
use tinytelegram.Base.{
  In, All_In, ℕ, zero, suc, ◌≤◌, ◌≡◌, refl, ap, ◌⊎◌, inl, inr, String, true, List, [], ◌∷◌, map,
  arith, leb, filter, take, length, All, Bool-cases, leb→le, All-map,
}
use tinytelegram.Base.Int.{ℤ}
use tinytelegram.MessageService.Schema.{Row}
use tinytelegram.MessageService.DiffQuery.{
  DiffRow, pts_for, is_missed, project, place, order_by_pts, diff_query,
}

abbrev pub IsSorted : List DiffRow → Type 0
IsSorted [] = Unit
IsSorted (r ∷ rows) = All (λ s. r.pts ≤ s.pts) rows × IsSorted rows

pub place-All :
    (P : DiffRow → Type 0) (r : DiffRow) (rows : List DiffRow)
    → P r
    → All P rows
    → All P (place r rows)
unfolding place
place-All P r [] h hs = (h, tt)
place-All P r (s ∷ rows) h hs = elim (Bool-cases (leb r.pts s.pts)) [
  | inl e ↦ rw e (h, hs)
  | inr e ↦ rw e (hs.0, place-All P r rows h hs.1)
]

place-IsSorted : (r : DiffRow) (rows : List DiffRow) → IsSorted rows → IsSorted (place r rows)
unfolding place
place-IsSorted r [] h = (tt, tt)
place-IsSorted r (s ∷ rows) h = elim (Bool-cases (leb r.pts s.pts)) [
  | inl e ↦ let le = leb→le r.pts s.pts e in rw e ((le, All_le r s rows le h.0), h)
  | inr e ↦
      rw e (place-All (λ t. s.pts ≤ t.pts) r rows (ground arith) h.0, place-IsSorted r rows h.1)
]
  where
    All_le :
        (r s : DiffRow) (l : List DiffRow)
        → r.pts ≤ s.pts
        → All (λ (t : DiffRow). s.pts ≤ t.pts) l
        → All (λ (t : DiffRow). r.pts ≤ t.pts) l
    All_le r s [] le a = tt
    All_le r s (t ∷ l) le a = (omega arith, All_le r s l le a.1)

pub order-IsSorted : (rows : List DiffRow) → IsSorted (order_by_pts rows)
unfolding order_by_pts
order-IsSorted [] = tt
order-IsSorted (r ∷ rows) = place-IsSorted r (order_by_pts rows) (order-IsSorted rows)

pub take-All : (P : DiffRow → Type 0) (n : ℕ) (l : List DiffRow) → All P l → All P (take n l)
take-All P zero l h = tt
take-All P (suc n) [] h = tt
take-All P (suc n) (r ∷ l) h = (h.0, take-All P n l h.1)

take-IsSorted : (n : ℕ) (l : List DiffRow) → IsSorted l → IsSorted (take n l)
take-IsSorted zero l h = tt
take-IsSorted (suc n) [] h = tt
take-IsSorted (suc n) (r ∷ l) h = (take-All _ n l h.0, take-IsSorted n l h.1)

length-take-le : (n : ℕ) (l : List DiffRow) → length (take n l) ≤ n
length-take-le zero l = omega arith
length-take-le (suc n) [] = omega arith
length-take-le (suc n) (r ∷ l) = omega (arith, length-take-le n l)

take-In :
    (n : ℕ) (l : List DiffRow) (x : DiffRow)
    → IsSorted l
    → In x l
    → In x (take n l) ⊎ ((length (take n l) ≡ n) × All (λ (y : DiffRow). y.pts ≤ x.pts) (take n l))
take-In zero l x h i = inr (refl, tt)
take-In (suc n) [] x h i = elim i [ ]
take-In (suc n) (y ∷ l) x h (inl e) = inl (inl e)
take-In (suc n) (y ∷ l) x h (inr i) = elim (take-In n l x h.1 i) [
  | inl found ↦ inl (inr found)
  | inr (full, below) ↦ inr (ap suc full, (All_In _ l x h.0 i, below))
]

place-In_self : (r : DiffRow) (rows : List DiffRow) → In r (place r rows)
unfolding place
place-In_self r [] = inl refl
place-In_self r (s ∷ rows) = elim (Bool-cases (leb r.pts s.pts)) [
  | inl e ↦ rw e (inl refl)
  | inr e ↦ rw e (inr (place-In_self r rows))
]

place-In : (r x : DiffRow) (rows : List DiffRow) → In x rows → In x (place r rows)
unfolding place
place-In r x [] i = elim i [ ]
place-In r x (s ∷ rows) i = elim (Bool-cases (leb r.pts s.pts)) [
  | inl e ↦ rw e (inr i)
  | inr e ↦ rw e (elim i [ inl same ↦ inl same | inr j ↦ inr (place-In r x rows j) ])
]

pub order-In : (x : DiffRow) (rows : List DiffRow) → In x rows → In x (order_by_pts rows)
unfolding order_by_pts
order-In x [] i = i
order-In x (r ∷ rows) (inl e) = rw (← e) (place-In_self r (order_by_pts rows))
order-In x (r ∷ rows) (inr i) = place-In r x (order_by_pts rows) (order-In x rows i)

pub order-All :
    (P : DiffRow → Type 0) (rows : List DiffRow) → All P rows → All P (order_by_pts rows)
unfolding order_by_pts
order-All P [] h = tt
order-All P (r ∷ rows) h = place-All P r (order_by_pts rows) h.0 (order-All P rows h.1)

-- The entry `d` shows a row of the table that the user has missed.
abbrev pub Shows : String → ℤ → List Row → DiffRow → Type 0
Shows user_id client_pts table d =
    (r : Row) × In r table × (is_missed user_id client_pts r ≡ true) × (project user_id r ≡ d)

abbrev pub matches : String → ℤ → List Row → List DiffRow
matches user_id client_pts table =
    map (project user_id) (filter (is_missed user_id client_pts) table)

module _ (user_id : String) (client_pts : ℤ) where
  pub matches-Shows :
      (table : List Row) → All (Shows user_id client_pts table) (matches user_id client_pts table)
  matches-Shows [] = tt
  matches-Shows (r ∷ table) =
      let rest =
        All-map (Shows user_id client_pts table) (Shows user_id client_pts (r ∷ table))
          (matches user_id client_pts table) (λ d (s, i, m, e). (s, inr i, m, e))
          (matches-Shows table) in
      elim (Bool-cases (is_missed user_id client_pts r)) [
        | inl m ↦ rw m ((r, inl refl, m, refl), rest)
        | inr m ↦ rw m rest
      ]

  pub matches-In :
      (r : Row) (table : List Row)
      → In r table
      → is_missed user_id client_pts r ≡ true
      → In (project user_id r) (matches user_id client_pts table)
  matches-In r [] i m = i
  matches-In r (s ∷ table) (inl e) m = rw (e, m) (inl refl)
  matches-In r (s ∷ table) (inr i) m = elim (Bool-cases (is_missed user_id client_pts s)) [
    | inl n ↦ rw n (inr (matches-In r table i m))
    | inr n ↦ rw n (matches-In r table i m)
  ]

  -- A page is sorted by number, no longer than the limit, and shows only messages that were missed.
  -- A missed message that is not on the page has at least the number of every message on it, and
  -- then the page is full.
  pub diff_page :
      (limit : ℕ) (table : List Row)
      → let page = diff_query user_id client_pts limit table in
        IsSorted page
        × (length page ≤ limit)
        × All (Shows user_id client_pts table) page
        × ((r : Row)
            → In r table
            → is_missed user_id client_pts r ≡ true
            → In (project user_id r) page
              ⊎ ((length page ≡ limit) × All (λ (d : DiffRow). d.pts ≤ pts_for user_id r) page))
  unfolding diff_query project
  diff_page limit table =
      let found = matches user_id client_pts table in
      (
        take-IsSorted limit _ (order-IsSorted found),
        length-take-le limit _,
        take-All _ limit _ (order-All _ found (matches-Shows table)),
        λ r i m.
            take-In limit _ (project user_id r) (order-IsSorted found)
              (order-In _ found (matches-In r table i m)),
      )
