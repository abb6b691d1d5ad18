-- ===== src/MessageService/Schema.antt =====
-- message-service/store/migrations: the table `messages` and its constraints.
pub mod Coverage
pub mod Collision
use tinytelegram.Base.{ℕ, ◌≡◌, String, Bool, true, not, ◌&&◌, List, [], ◌∷◌, ◌==◌, eqb}

pub record Row : Type 0 where
  pub id : String
  pub sender_id : String
  pub receiver_id : String
  pub content : String
  pub sender_pts : ℕ
  pub receiver_pts : ℕ
  pub created_at : ℕ

-- id UUID PRIMARY KEY
abbrev pub same_id : Row → Row → Bool
same_id r s = r.id == s.id

-- UNIQUE (receiver_id, receiver_pts)
abbrev pub same_receiver : Row → Row → Bool
same_receiver r s = (r.receiver_id == s.receiver_id) && eqb r.receiver_pts s.receiver_pts

-- UNIQUE (sender_id, sender_pts)
abbrev pub same_sender : Row → Row → Bool
same_sender r s = (r.sender_id == s.sender_id) && eqb r.sender_pts s.sender_pts

-- No row of the table conflicts with `r` under the given constraint.
unfoldable pub is_fresh : (Row → Row → Bool) → Row → List Row → Bool
is_fresh same r [] = true
is_fresh same r (s ∷ rows) = not (same r s) && is_fresh same r rows

-- Whether an INSERT of `r` keeps all three constraints.
unfoldable pub admits : List Row → Row → Bool
admits rows r =
    is_fresh same_id r rows && (is_fresh same_receiver r rows && is_fresh same_sender r rows)

-- Every row was admitted by the rows below it.
abbrev pub IsConsistent : List Row → Type 0
IsConsistent [] = Unit
IsConsistent (r ∷ rows) = (admits rows r ≡ true) × IsConsistent rows
