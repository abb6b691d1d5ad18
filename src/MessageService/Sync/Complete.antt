-- ===== src/MessageService/Sync/Complete.antt =====
-- A client that reads page after page gets every message that it had missed, once and in order.
use mathlib.Core.Path.{subst}
use tinytelegram.Base.{
  ℕ, zero, suc, ◌≤◌, ◌≡◌, refl, ap, sym, ◌∙◌, String, List, [], ◌∷◌, ◌++◌, map, arith, take, drop,
  length, All, inl, inr, ◌⊎◌, take-append-drop, eq_iff,
}
use tinytelegram.Base.Int.{ℤ, pos}
use tinytelegram.Proto.{PersistedMessage, GetDiffRequest, GetDiffResponse}
use tinytelegram.MessageService.Redis.{Redis}
use tinytelegram.MessageService.Postgres.{Postgres}
use tinytelegram.MessageService.Persist.{reply, World}
use tinytelegram.MessageService.DiffQuery.{DiffRow}
use tinytelegram.MessageService.Diff.{to_message, page_limit, get_diff}
use tinytelegram.MessageService.Diff.Response.{get_diff-page, db-get_diff, page_limit_bounds}
use tinytelegram.MessageService.Sync.{
  number, last_number, prepend, after_messages, after_page, catch_up,
}
use tinytelegram.MessageService.Sync.Missed.{
  IsNewestFirst, missed, diff_query-missed, IsParty, missed-IsParty,
}
use tinytelegram.MessageService.Sync.After.{last_pts, missed-drop}
use tinytelegram.MessageService.DiffQuery.Pages.{take-All}
use tinytelegram.WebClient.{pts_of}

number-to_message : (u : String) (d : DiffRow) → IsParty u d → number u (to_message u d) ≡ d.pts
unfolding to_message pts_of
number-to_message u d h = ground (arith, eq_iff d.receiver_id u, eq_iff d.sender_id u)

last_number-map :
    (u : String) (c : ℕ) (l : List DiffRow)
    → All (IsParty u) l
    → last_number u c (map (to_message u) l) ≡ last_pts c l
last_number-map u c [] h = refl
last_number-map u c (d ∷ l) h =
    ap (λ n. last_number u n (map (to_message u) l)) (number-to_message u d h.0)
    ∙ last_number-map u d.pts l h.1

length-drop-le : (n : ℕ) (l : List DiffRow) → length (drop n l) ≤ length l
length-drop-le zero l = omega arith
length-drop-le (suc n) [] = omega arith
length-drop-le (suc n) (d ∷ l) = omega (arith, length-drop-le n l)

map-append :
    (f : DiffRow → PersistedMessage) (xs ys : List DiffRow)
    → map f xs ++ map f ys ≡ map f (xs ++ ys)
map-append f [] ys = refl
map-append f (x ∷ xs) ys = ap (λ l. f x ∷ l) (map-append f xs ys)

List-cases : (l : List DiffRow) → (l ≡ []) ⊎ ((d : DiffRow) × (m : List DiffRow) × (l ≡ d ∷ m))
List-cases [] = inl refl
List-cases (d ∷ m) = inr (d, m, refl)

take-nil : (n : ℕ) → take {A = DiffRow} n [] ≡ []
take-nil zero = refl
take-nil (suc n) = refl

positive : (n : ℕ) → 1 ≤ n → (k : ℕ) × (n ≡ suc k)
positive zero h = absurd (omega arith)
positive (suc k) h = (k, refl)

-- Every call of `GetDiff` by the user is answered.
abbrev pub Answers : (R : Redis) (P : Postgres) → String → ℤ → Type 0
Answers R P u limit =
    (c : ℕ) (w : World R P)
    → (resp : GetDiffResponse) × ((get_diff R P
          (record { user_id = u; client_pts = pos c; limit = limit }) w).0
        ≡ reply resp)

module _ (R : Redis) (P : Postgres) (u : String) (limit : ℤ) (answers : Answers R P u limit) where
  -- One page, and the pages after it.
  catch_up-page :
      (n c k : ℕ) (d : DiffRow) (l : List DiffRow) (w : World R P)
      → IsNewestFirst u (P.rows w.db)
      → page_limit limit ≡ suc k
      → missed u c (P.rows w.db) ≡ d ∷ l
      → ((w' : World R P)
          → P.rows w'.db ≡ P.rows w.db
          → catch_up R P u limit n (last_pts d.pts (take k l)) w'
            ≡ reply (map (to_message u) (drop k l)))
      → catch_up R P u limit (suc n) c w ≡ reply (map (to_message u) (d ∷ l))
  unfolding catch_up
  catch_up-page n c k d l w h size e later =
      let req : GetDiffRequest = record { user_id = u; client_pts = pos c; limit = limit } in
      let w' = (get_diff R P req w).1 in
      let (resp, answered) = answers c w in
      let page : resp.messages ≡ map (to_message u) (d ∷ take k l) =
        (get_diff-page R P req w resp answered).0
        ∙ ap (map (to_message u)) (
            diff_query-missed u c (page_limit limit) (P.rows w.db)
            ∙ ap (λ n. take n (missed u c (P.rows w.db))) size
            ∙ ap (take (suc k)) e) in
      let party : All (IsParty u) (d ∷ take k l) =
        take-All (IsParty u) (suc k) (d ∷ l) (rw e at (missed-IsParty u c (P.rows w.db))) in
      let rest =
        ap (λ q. catch_up R P u limit n q w') (last_number-map u c (d ∷ take k l) party)
        ∙ later w' (ap (λ b. P.rows b) (db-get_diff R P req w)) in
      ap (λ a. after_page R P u limit (catch_up R P u limit n) c (a, w')) answered
      ∙ ap (after_messages R P u limit (catch_up R P u limit n) c w') page
      ∙ ap (prepend R P u limit (map (to_message u) (d ∷ take k l))) rest
      ∙ ap reply (
          map-append (to_message u) (d ∷ take k l) (drop k l)
          ∙ ap (λ l. map (to_message u) (d ∷ l)) (take-append-drop k l))

  catch_up-none :
      (n c : ℕ) (w : World R P)
      → missed u c (P.rows w.db) ≡ []
      → catch_up R P u limit n c w ≡ reply []
  unfolding catch_up
  catch_up-none zero c w e = refl
  catch_up-none (suc n) c w e =
      let req : GetDiffRequest = record { user_id = u; client_pts = pos c; limit = limit } in
      let w' = (get_diff R P req w).1 in
      let (resp, answered) = answers c w in
      let page : resp.messages ≡ [] =
        (get_diff-page R P req w resp answered).0
        ∙ ap (map (to_message u)) (
            diff_query-missed u c (page_limit limit) (P.rows w.db)
            ∙ ap (take (page_limit limit)) e
            ∙ take-nil (page_limit limit)) in
      ap (λ a. after_page R P u limit (catch_up R P u limit n) c (a, w')) answered
      ∙ ap (after_messages R P u limit (catch_up R P u limit n) c w') page

  catch_up-more :
      (n c : ℕ) (d : DiffRow) (l : List DiffRow) (w : World R P)
      → IsNewestFirst u (P.rows w.db)
      → missed u c (P.rows w.db) ≡ d ∷ l
      → length (d ∷ l) ≤ n
      → catch_up R P u limit n c w ≡ reply (map (to_message u) (d ∷ l))
  catch_up-more zero c d l w h e few = absurd (omega arith)
  catch_up-more (suc n) c d l w h e few =
      let (k, size) = positive (page_limit limit) (page_limit_bounds limit).0 in
      let q = last_pts d.pts (take k l) in
      catch_up-page n c k d l w h size e (λ w' same.
        let left : missed u q (P.rows w'.db) ≡ drop k l =
          ap (missed u q) same ∙ missed-drop u c k d l (P.rows w.db) h e in
        let shorter : length (drop k l) ≤ n = omega (arith, length-drop-le k l, few) in
        elim (List-cases (drop k l)) [
          | inl end ↦ rw end (catch_up-none n q w' (left ∙ end))
          | inr (d', l', more) ↦ rw more (
              catch_up-more n q d' l' w' (subst (IsNewestFirst u) (sym same) h) (left ∙ more)
                (rw more at shorter))
        ])

  -- With no more messages than pages, all of them come.
  pub catch_up-missed :
      (n c : ℕ) (w : World R P)
      → IsNewestFirst u (P.rows w.db)
      → length (missed u c (P.rows w.db)) ≤ n
      → catch_up R P u limit n c w ≡ reply (map (to_message u) (missed u c (P.rows w.db)))
  catch_up-missed n c w h few = elim (List-cases (missed u c (P.rows w.db))) [
    | inl e ↦ rw e (catch_up-none n c w e)
    | inr (d, l, e) ↦ rw e (catch_up-more n c d l w h e (rw e at few))
  ]
