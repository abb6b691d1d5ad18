-- ===== src/MessageService/Diff/Response.antt =====
-- What a successful `GetDiff` returns.
use tinytelegram.Base.{
  In, ◌≤◌, ◌≡◌, refl, ◌∙◌, ◌⊎◌, String, true, none, List, [], ◌∷◌, map, arith, length, All, inl,
  inr, Option-cases,
}
use tinytelegram.Base.Exec.{Result, ok, err, Result-cases}
use tinytelegram.Base.Int.{ℤ}
use tinytelegram.Proto.{PersistedMessage, GetDiffRequest, GetDiffResponse}
use tinytelegram.MessageService.Keys.{pts_key}
use tinytelegram.MessageService.Redis.{Redis, get_user_pts}
use tinytelegram.MessageService.Schema.{Row}
use tinytelegram.MessageService.DiffQuery.{DiffRow, pts_for, is_missed, project, diff_query}
use tinytelegram.MessageService.DiffQuery.Pages.{IsSorted, Shows, diff_page}
use tinytelegram.MessageService.Postgres.{Postgres}
use tinytelegram.MessageService.Persist.{reply, World}
use tinytelegram.MessageService.Diff.{
  page_limit, to_message, collect, read_messages, with_current_pts, get_diff,
}

-- Whatever the client sends, a page holds between 1 and 1000 messages at most.
pub page_limit_bounds : (limit : ℤ) → (1 ≤ page_limit limit) × (page_limit limit ≤ 1000)
unfolding page_limit
page_limit_bounds limit = ground arith

collect-ok :
    (user_id : String) (scans : List (Result DiffRow)) (messages : List PersistedMessage)
    → collect user_id scans ≡ ok messages
    → (page : List DiffRow) × (scans ≡ map ok page) × (messages ≡ map (to_message user_id) page)
unfolding collect
collect-ok user_id [] messages h = ([], refl, ground arith)
collect-ok user_id (err e ∷ rest) messages h = absurd (ground arith)
collect-ok user_id (ok r ∷ rest) messages h = elim (Result-cases (collect user_id rest)) [
  | inl (tail, e) ↦
      let (page, scanned, shown) = collect-ok user_id rest tail e in
      (r ∷ page, rw scanned, ground arith)
  | inr (t, e) ↦ absurd (ground arith)
]

module _ (R : Redis) (P : Postgres) where
  read-ok :
      (user_id : String) (query : List DiffRow) (db : P.Db) (messages : List PersistedMessage)
      → read_messages R P user_id query db ≡ ok messages
      → messages ≡ map (to_message user_id) query
  unfolding read_messages
  read-ok user_id query db messages h = elim (Result-cases (P.select db query)) [
    | inr (t, e) ↦ absurd (ground arith)
    | inl ((scans, last), e) ↦ elim (Result-cases (collect user_id scans)) [
      | inr (t, e₂) ↦ absurd (ground arith)
      | inl (found, e₂) ↦ elim (Option-cases last) [
        | inr (t, e₃) ↦ absurd (ground arith)
        | inl e₃ ↦
            let (page, scanned, shown) = collect-ok user_id scans found e₂ in
            let handed : P.select db query ≡ ok (map ok page, none) = cc in
            let same = P.select_rows db query page handed in
            let all : messages ≡ found = ground arith in rw (← same, all) shown
      ]
    ]
  ]

  current-ok :
      (user_id : String) (messages : List PersistedMessage) (w : World R P) (resp : GetDiffResponse)
      → (with_current_pts R P user_id messages w).0 ≡ reply resp
      → (resp.messages ≡ messages) × (resp.current_pts ≡ R.counter w.conn (pts_key user_id))
  unfolding with_current_pts get_user_pts
  current-ok user_id messages w resp h =
      elim (Result-cases (R.get_int (pts_key user_id) w.conn).0) [
        | inr (t, e) ↦ absurd (ground arith)
        | inl (val, e) ↦ ground (arith, R.get_int_ok (pts_key user_id) w.conn e)
      ]

  db-current :
      (user_id : String) (messages : List PersistedMessage) (w : World R P)
      → (with_current_pts R P user_id messages w).1.db ≡ w.db
  unfolding with_current_pts
  db-current user_id messages w = refl

  -- `GetDiff` never changes the table.
  pub db-get_diff : (req : GetDiffRequest) (w : World R P) → (get_diff R P req w).1.db ≡ w.db
  unfolding get_diff
  db-get_diff req w =
      let query = diff_query req.user_id req.client_pts (page_limit req.limit) (P.rows w.db) in
      elim (Result-cases (read_messages R P req.user_id query w.db)) [
        | inl (messages, e) ↦ rw (e, get_diff) (db-current req.user_id messages w)
        | inr (t, e) ↦ rw (e, get_diff)
      ]

  -- The page that the messages of a response stand for.
  pub get_diff-page :
      (req : GetDiffRequest) (w : World R P) (resp : GetDiffResponse)
      → (get_diff R P req w).0 ≡ reply resp
      → (resp.messages
          ≡ map
              (to_message req.user_id)
              (diff_query req.user_id req.client_pts (page_limit req.limit) (P.rows w.db)))
        × (resp.current_pts ≡ R.counter w.conn (pts_key req.user_id))
  unfolding get_diff
  get_diff-page req w resp h =
      let query = diff_query req.user_id req.client_pts (page_limit req.limit) (P.rows w.db) in
      elim (Result-cases (read_messages R P req.user_id query w.db)) [
        | inr (t, e) ↦ absurd (ground arith)
        | inl (messages, e) ↦
            let (all, current) = current-ok req.user_id messages w resp (rw (e, get_diff) at h) in
            (all ∙ read-ok req.user_id query w.db messages e, current)
      ]

  -- A successful response holds a page of at most 1000 messages in the order of their numbers, each
  -- of which the client had missed, and the user's counter. A missed message that is not in the
  -- response has at least the number of every message in it, and then the page is not empty, and as
  -- long as the limit of the request allows.
  pub get_diff_sync :
      (req : GetDiffRequest) (w : World R P) (resp : GetDiffResponse)
      → (get_diff R P req w).0 ≡ reply resp
      → (page : List DiffRow) × (resp.messages ≡ map (to_message req.user_id) page)
        × (resp.current_pts ≡ R.counter w.conn (pts_key req.user_id))
        × IsSorted page
        × (length page ≤ 1000)
        × All (Shows req.user_id req.client_pts (P.rows w.db)) page
        × ((r : Row)
            → In r (P.rows w.db)
            → is_missed req.user_id req.client_pts r ≡ true
            → In (project req.user_id r) page
              ⊎ ((1 ≤ length page)
                  × (length page ≡ page_limit req.limit)
                  × All (λ (d : DiffRow). d.pts ≤ pts_for req.user_id r) page))
  get_diff_sync req w resp h =
      let limit = page_limit req.limit in
      let bounds = page_limit_bounds req.limit in
      let (sorted, short, sound, complete) =
        diff_page req.user_id req.client_pts limit (P.rows w.db) in
      let (all, current) = get_diff-page req w resp h in
      (
        diff_query req.user_id req.client_pts limit (P.rows w.db),
        all,
        current,
        sorted,
        omega arith,
        sound,
        λ r i m. elim (complete r i m) [
          | inl found ↦ inl found
          | inr (full, below) ↦ inr (omega arith, full, below)
        ],
      )
