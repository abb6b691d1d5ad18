-- ===== src/MessageService/DiffQuery.antt =====
-- The SELECT statement of `GetDiff` (message-service/grpc/server.go).
pub mod Pages
pub mod Rows
use tinytelegram.Base.{
  ℕ, String, Bool, ◌&&◌, ◌||◌, List, [], ◌∷◌, map, ◌==◌, leb, filter, take, if◌then◌else◌,
}
use tinytelegram.Base.Int.{ℤ, pos, ltb_ℤ}
use tinytelegram.MessageService.Schema.{Row}

-- One row of the result.
pub record DiffRow : Type 0 where
  pub id : String
  pub sender_id : String
  pub receiver_id : String
  pub content : String
  pub pts : ℕ
  pub created_at : ℕ

-- CASE WHEN receiver_id = $1 THEN receiver_pts ELSE sender_pts END
unfoldable pub pts_for : String → Row → ℕ
pts_for user_id r = if r.receiver_id == user_id then r.receiver_pts else r.sender_pts

-- (receiver_id = $1 OR sender_id = $1)
unfoldable pub is_party : String → Row → Bool
is_party user_id r = r.receiver_id == user_id || r.sender_id == user_id

-- ... AND CASE ... END > $2
unfoldable pub is_missed : String → ℤ → Row → Bool
unfolding is_party
is_missed user_id client_pts r = is_party user_id r && ltb_ℤ client_pts (pos (pts_for user_id r))

unfoldable pub project : String → Row → DiffRow
project user_id r = record {
  id = r.id;
  sender_id = r.sender_id;
  receiver_id = r.receiver_id;
  content = r.content;
  pts = pts_for user_id r;
  created_at = r.created_at;
}

-- ORDER BY pts ASC. Rows with the same number keep the table's order, which SQL leaves open.
unfoldable pub place : DiffRow → List DiffRow → List DiffRow
place r [] = r ∷ []
place r (s ∷ rows) = if leb r.pts s.pts then r ∷ s ∷ rows else s ∷ place r rows

unfoldable pub order_by_pts : List DiffRow → List DiffRow
order_by_pts [] = []
order_by_pts (r ∷ rows) = place r (order_by_pts rows)

-- The whole statement.
unfoldable pub diff_query : String → ℤ → ℕ → List Row → List DiffRow
diff_query user_id client_pts limit table =
    take limit (order_by_pts (map (project user_id) (filter (is_missed user_id client_pts) table)))
