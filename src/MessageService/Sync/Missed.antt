-- ===== src/MessageService/Sync/Missed.antt =====
-- The rows that a user has missed, in a table whose newest rows stand first.
use tinytelegram.MessageService.DiffQuery.Pages.{
  Shows, matches, matches-In, matches-Shows, order-In, order-All, place-All,
}
use tinytelegram.Base.{
  All-map, In, ℕ, ◌<◌, ◌≡◌, refl, String, true, List, [], ◌∷◌, ◌++◌, map, arith, filter, take, All,
  Bool-cases, inl, inr, ◌⊎◌, eq_iff, if◌then◌else◌,
}
use tinytelegram.Base.Int.{pos}
use tinytelegram.MessageService.Schema.{Row}
use tinytelegram.MessageService.DiffQuery.{
  DiffRow, pts_for, is_party, is_missed, project, place, order_by_pts, diff_query,
}

-- Of two rows of the user, the upper one has the higher number.
abbrev pub IsNewestFirst : String → List Row → Type 0
IsNewestFirst u [] = Unit
IsNewestFirst u (r ∷ rows) =
    (is_party u r ≡ true → All (λ s. is_party u s ≡ true → pts_for u s < pts_for u r) rows)
    × IsNewestFirst u rows

-- The SELECT of `GetDiff` with no LIMIT.
unfoldable pub missed : String → ℕ → List Row → List DiffRow
missed u c table = order_by_pts (map (project u) (filter (is_missed u (pos c)) table))

pub diff_query-missed :
    (u : String) (c limit : ℕ) (table : List Row)
    → diff_query u (pos c) limit table ≡ take limit (missed u c table)
unfolding diff_query missed
diff_query-missed u c limit table = refl

-- A row with the highest number comes last.
place_last :
    (r : DiffRow) (l : List DiffRow) → All (λ s. s.pts < r.pts) l → place r l ≡ l ++ (r ∷ [])
unfolding place
place_last r [] h = refl
place_last r (s ∷ l) h = ground (arith, place_last r l h.1)

missed-below :
    (u : String) (c n : ℕ) (table : List Row)
    → All (λ s. is_party u s ≡ true → pts_for u s < n) table
    → All (λ d. d.pts < n) (missed u c table)
unfolding missed order_by_pts is_missed project
missed-below u c n [] h = tt
missed-below u c n (r ∷ table) h =
    let rest = missed-below u c n table h.1 in
    elim (Bool-cases (is_missed u (pos c) r)) [
      | inl e ↦
          rw e (place-All (λ d. d.pts < n) (project u r) (missed u c table) (ground arith) rest)
      | inr e ↦ rw e rest
    ]

pub missed-cons :
    (u : String) (c : ℕ) (r : Row) (table : List Row)
    → IsNewestFirst u (r ∷ table)
    → missed u c (r ∷ table)
      ≡ (if is_missed u (pos c) r then missed u c table ++ (project u r ∷ []) else missed u c table)
unfolding missed order_by_pts is_missed project
missed-cons u c r table h = elim (Bool-cases (is_missed u (pos c) r)) [
  | inl e ↦ rw e (
      place_last (project u r) (missed u c table)
        (missed-below u c (pts_for u r) table (h.0 (ground arith))))
  | inr e ↦ rw e refl
]

-- Each number is higher than the one before.
abbrev pub IsAscending : List DiffRow → Type 0
IsAscending [] = Unit
IsAscending (d ∷ l) = All (λ e. d.pts < e.pts) l × IsAscending l

pub All-concat :
    (P : DiffRow → Type 0) (l : List DiffRow) (d : DiffRow) → All P l → P d → All P (l ++ (d ∷ []))
All-concat P [] d h p = (p, tt)
All-concat P (e ∷ l) d h p = (h.0, All-concat P l d h.1 p)

concat-IsAscending :
    (l : List DiffRow) (d : DiffRow)
    → IsAscending l
    → All (λ e. e.pts < d.pts) l
    → IsAscending (l ++ (d ∷ []))
concat-IsAscending [] d h below = (tt, tt)
concat-IsAscending (e ∷ l) d h below =
    (All-concat (λ x. e.pts < x.pts) l d h.0 below.0, concat-IsAscending l d h.1 below.1)

pub missed-IsAscending :
    (u : String) (c : ℕ) (table : List Row) → IsNewestFirst u table → IsAscending (missed u c table)
unfolding is_missed project
missed-IsAscending u c [] h = unfold missed order_by_pts in tt
missed-IsAscending u c (r ∷ table) h =
    let rest = missed-IsAscending u c table h.1 in
    elim (Bool-cases (is_missed u (pos c) r)) [
      | inl e ↦
          rw (missed-cons u c r table h, e)
            (concat-IsAscending (missed u c table) (project u r) rest
              (missed-below u c (pts_for u r) table (h.0 (ground arith))))
      | inr e ↦ rw (missed-cons u c r table h, e) rest
    ]

pub missed-In :
    (u : String) (c : ℕ) (table : List Row) (r : Row)
    → In r table
    → is_missed u (pos c) r ≡ true
    → In (project u r) (missed u c table)
unfolding missed
missed-In u c table r i m = order-In _ (matches u (pos c) table) (matches-In u (pos c) r table i m)

pub missed-Shows :
    (u : String) (c : ℕ) (table : List Row) → All (Shows u (pos c) table) (missed u c table)
unfolding missed
missed-Shows u c table = order-All _ (matches u (pos c) table) (matches-Shows u (pos c) table)

-- The user is the receiver or the sender of every row that it has missed.
abbrev pub IsParty : String → DiffRow → Type 0
IsParty u d = (d.receiver_id ≡ u) ⊎ (d.sender_id ≡ u)

pub missed-IsParty : (u : String) (c : ℕ) (table : List Row) → All (IsParty u) (missed u c table)
unfolding is_missed is_party project
missed-IsParty u c table =
    All-map (Shows u (pos c) table) (IsParty u) (missed u c table)
      (λ d (r, i, m, e). rw (← e) (ground (arith, eq_iff r.receiver_id u, eq_iff r.sender_id u)))
      (missed-Shows u c table)
