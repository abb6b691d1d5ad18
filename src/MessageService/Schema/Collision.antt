-- ===== src/MessageService/Schema/Collision.antt =====
-- What the two uniqueness constraints leave open: they look at receivers and at senders apart, and a
-- user's numbers are shared by both roles.
use tinytelegram.Base.{
  ℕ, zero, suc, String, false, refl, sym, ◌∙◌, ◌≡◌, ◌≢◌, [], ◌∷◌, arith, eq_iff, take,
}
use tinytelegram.Base.Int.{pos}
use tinytelegram.MessageService.Schema.{Row, is_fresh, admits, IsConsistent}
use tinytelegram.MessageService.DiffQuery.{pts_for, is_missed, order_by_pts, diff_query}

seen :
    (user_id : String) (r : Row) (p : ℕ)
    → pts_for user_id r ≡ p
    → is_missed user_id (pos p) r ≡ false
unfolding is_missed
seen user_id r p e = ground arith

order_nothing : (limit : ℕ) → take limit (order_by_pts []) ≡ []
unfolding order_by_pts
order_nothing zero = refl
order_nothing (suc n) = refl

-- Two messages with different ids, neither of them from a user to the same user, that give one user the
-- same number, the one as receiver and the other as sender, are admitted together; and a GetDiff query
-- from that number returns neither of them.
pub cross_role_collision :
    (r s : Row) (limit : ℕ)
    → r.receiver_id ≡ s.sender_id
    → r.receiver_pts ≡ s.sender_pts
    → r.receiver_id ≢ s.receiver_id
    → r.sender_id ≢ s.sender_id
    → r.id ≢ s.id
    → IsConsistent (s ∷ r ∷ [])
      × (pts_for r.receiver_id r ≡ pts_for r.receiver_id s)
      × (diff_query r.receiver_id (pos r.receiver_pts) limit (s ∷ r ∷ []) ≡ [])
unfolding admits is_fresh pts_for diff_query
cross_role_collision r s limit role number ne_receiver ne_sender ne_id = (
  ground
      (arith, eq_iff s.id r.id, eq_iff s.receiver_id r.receiver_id, eq_iff s.sender_id r.sender_id),
  same,
  rw (seen r.receiver_id s r.receiver_pts (sym same ∙ own), seen r.receiver_id r r.receiver_pts own)
      (order_nothing limit),
)
  where
    own : pts_for r.receiver_id r ≡ r.receiver_pts
    own = ground (arith, eq_iff r.receiver_id r.receiver_id)

    same : pts_for r.receiver_id r ≡ pts_for r.receiver_id s
    same = ground (arith, eq_iff r.receiver_id r.receiver_id, eq_iff s.receiver_id r.receiver_id)
