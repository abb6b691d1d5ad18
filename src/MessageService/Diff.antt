-- ===== src/MessageService/Diff.antt =====
-- `GetDiff` and `GetUserPts` (message-service/grpc/server.go).
pub mod Response
use tinytelegram.Base.{ℕ, String, ◌||◌, Option, none, some, List, [], ◌∷◌, ◌==◌, if◌then◌else◌}
use tinytelegram.Base.Exec.{Result, ok, err}
use tinytelegram.Base.Int.{ℤ, pos, pos_part, leb_ℤ, ltb_ℤ}
use tinytelegram.Proto.{ChatMessage, PersistedMessage, GetDiffRequest, GetDiffResponse}
use tinytelegram.MessageService.Redis.{Redis, get_user_pts}
use tinytelegram.MessageService.DiffQuery.{DiffRow, diff_query}
use tinytelegram.MessageService.Postgres.{Postgres}
use tinytelegram.MessageService.Persist.{Reply, reply, fail, unknown, World}

-- `limit <= 0 || limit > 1000` falls back to 1000.
unfoldable pub page_limit : ℤ → ℕ
page_limit limit = if leb_ℤ limit (pos 0) || ltb_ℤ (pos 1000) limit then 1000 else pos_part limit

-- The message for a row of the result: the number goes to the role of the user who asks, and the
-- field of the other role keeps Go's zero value.
unfoldable pub to_message : String → DiffRow → PersistedMessage
to_message user_id r = record {
  id = r.id;
  message = some (record {
    sender_id = r.sender_id;
    receiver_id = r.receiver_id;
    content = r.content;
    client_timestamp = 0;
  });
  receiver_pts = if r.receiver_id == user_id then r.pts else 0;
  sender_pts = if r.receiver_id == user_id then 0 else r.pts;
  server_timestamp = r.created_at;
}

-- The loop over the rows; an error of `Scan` ends it.
unfoldable pub collect : String → List (Result DiffRow) → Result (List PersistedMessage)
collect user_id [] = ok []
collect user_id (err e ∷ rest) = err e
collect user_id (ok r ∷ rest) = elim (collect user_id rest) [
  | ok messages ↦ ok (to_message user_id r ∷ messages)
  | err e ↦ err e
]

-- `rows.Err()`, which ends the loop too.
unfoldable pub after_rows : Option String → List PersistedMessage → Result (List PersistedMessage)
after_rows none messages = ok messages
after_rows (some e) messages = err e

module _ (R : Redis) (P : Postgres) where
  -- The messages of the response, or the first error of the query, a row, or the cursor.
  unfoldable pub read_messages : String → List DiffRow → P.Db → Result (List PersistedMessage)
  unfolding collect after_rows
  read_messages user_id query db = elim (P.select db query) [
    | err e ↦ err e
    | ok (scans, last) ↦ elim (collect user_id scans) [
      | err e ↦ err e
      | ok messages ↦ after_rows last messages
    ]
  ]

  -- The counter is read last.
  unfoldable pub with_current_pts :
      String → List PersistedMessage → World R P → Reply GetDiffResponse × World R P
  with_current_pts user_id messages w =
      let (val, conn') = get_user_pts R user_id w.conn in
      let answer : Reply GetDiffResponse = elim val [
        | ok pts ↦ reply (record { messages = messages; current_pts = pts })
        | err e ↦ fail unknown e
      ] in
      (answer, record { conn = conn'; db = w.db })

  unfoldable pub get_diff : GetDiffRequest → World R P → Reply GetDiffResponse × World R P
  unfolding read_messages with_current_pts
  get_diff req w =
      let query = diff_query req.user_id req.client_pts (page_limit req.limit) (P.rows w.db) in
      elim (read_messages req.user_id query w.db) [
        | err e ↦ (fail unknown e, w)
        | ok messages ↦ with_current_pts req.user_id messages w
      ]

  unfoldable pub get_user_pts_handler : String → World R P → Reply ℕ × World R P
  get_user_pts_handler user_id w =
      let (val, conn') = get_user_pts R user_id w.conn in
      let answer : Reply ℕ = elim val [ ok pts ↦ reply pts | err e ↦ fail unknown e ] in
      (answer, record { conn = conn'; db = w.db })
