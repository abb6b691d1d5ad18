-- ===== src/MessageService/DbCheck.antt =====
-- message-service/cmd/dbcheck/main.go: the queries that verify the table after a test run.
pub mod Exact
pub mod Gaps
mod Tests
use tinytelegram.Base.{
  ℕ, suc, ◌+◌, ◌-◌, String, Bool, ◌&&◌, List, [], ◌∷◌, ◌==◌, eqb, ltb, filter, take, length,
  if◌then◌else◌,
}
use tinytelegram.MessageService.Schema.{Row}

-- A row of `SELECT receiver_id, receiver_pts, count(*) AS dups`, or of its twin for senders.
pub record Group : Type 0 where
  pub user_id : String
  pub pts : ℕ
  pub dups : ℕ

module _ (user : Row → String) (number : Row → ℕ) where
  unfoldable pub in_group : Row → Group → Bool
  in_group r g = g.user_id == user r && eqb g.pts (number r)

  -- GROUP BY 1,2
  unfoldable pub tally : Row → List Group → List Group
  tally r [] = record { user_id = user r; pts = number r; dups = 1 } ∷ []
  tally r (g ∷ gs) =
      if in_group r g
      then record { user_id = g.user_id; pts = g.pts; dups = suc g.dups } ∷ gs
      else g ∷ tally r gs

  unfoldable pub groups : List Row → List Group
  groups [] = []
  groups (r ∷ rows) = tally r (groups rows)

  -- HAVING count(*) > 1 LIMIT 10
  unfoldable pub duplicates : List Row → List Group
  duplicates rows = take 10 (filter (λ g. ltb 1 g.dups) (groups rows))

-- `SELECT count(*)`
unfoldable pub total_messages : List Row → ℕ
total_messages rows = length rows

unfoldable pub duplicate_receiver_pts : List Row → List Group
duplicate_receiver_pts = duplicates (λ r. r.receiver_id) (λ r. r.receiver_pts)

unfoldable pub duplicate_sender_pts : List Row → List Group
duplicate_sender_pts = duplicates (λ r. r.sender_id) (λ r. r.sender_pts)
