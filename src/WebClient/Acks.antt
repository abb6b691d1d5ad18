-- ===== src/WebClient/Acks.antt =====
-- Acknowledgements in the client, which say nothing of the message that they belong to but its new id.
use tinytelegram.Base.{
  ℕ, ◌≡◌, String, true, false, some, List, [], ◌∷◌, ◌==◌, refl, arith, ap, ◌∙◌, eq_refl,
}
use tinytelegram.Base.Dict.{get, put, delete, get-put}
use tinytelegram.Gateway.Session.{Ack}
use tinytelegram.WebClient.{
  Client, Shown, save_state, update_pts, reconcile, shift_pending, handle_ack, send_message,
}

abbrev pub acknowledged : Ack → Shown → Shown
acknowledged ack msg = record msg { id = ack.message_id; pts = ack.sender_pts; pending = false }

pub update_keeps :
    (n : ℕ) (c : Client)
    → ((update_pts n c).messages ≡ c.messages) × ((update_pts n c).pending_acks ≡ c.pending_acks)
unfolding update_pts save_state
update_keeps n c = ground arith

shift_shows :
    (ids : List String) (temp_id : String) (rest : List String) (ack : Ack) (msg : Shown)
    (c : Client)
    → ids ≡ temp_id ∷ rest
    → get c.messages temp_id ≡ some msg
    → get (shift_pending ids ack c).messages ack.message_id ≡ some (acknowledged ack msg)
unfolding shift_pending reconcile
shift_shows ids temp_id rest ack msg c oldest found =
    rw
      (
        oldest,
        found,
        get-put (delete c.messages temp_id) ack.message_id (acknowledged ack msg) ack.message_id,
        eq_refl ack.message_id,
      )
      refl

-- An acknowledgement goes to the oldest message that waits for one.
pub ack_shows :
    (temp_id : String) (rest : List String) (ack : Ack) (msg : Shown) (c : Client)
    → c.pending_acks ≡ temp_id ∷ rest
    → get c.messages temp_id ≡ some msg
    → get (handle_ack ack c).messages ack.message_id ≡ some (acknowledged ack msg)
unfolding handle_ack
ack_shows temp_id rest ack msg c oldest found =
    let c' = update_pts ack.sender_pts c in
    let (messages, pending) = update_keeps ack.sender_pts c in
    shift_shows c'.pending_acks temp_id rest ack msg c' (pending ∙ oldest)
      (ap (λ d. get d temp_id) messages ∙ found)

abbrev pub unacknowledged : String → String → String → String → Shown
unacknowledged user_id temp_id receiver_id content = record {
  id = temp_id;
  sender_id = user_id;
  receiver_id = receiver_id;
  content = content;
  pts = 0;
  pending = true;
}

two_sent :
    (c : Client) (t₁ t₂ r₁ r₂ text₁ text₂ : String)
    → c.is_open ≡ true
    → c.pending_acks ≡ []
    → (t₁ == t₂) ≡ false
    → let c' = send_message t₂ r₂ text₂ (send_message t₁ r₁ text₁ c) in
      (c'.pending_acks ≡ t₁ ∷ t₂ ∷ [])
      × (get c'.messages t₁ ≡ some (unacknowledged c.user_id t₁ r₁ text₁))
unfolding send_message
two_sent c t₁ t₂ r₁ r₂ text₁ text₂ online idle distinct =
    rw (online, idle)
      (
        refl,
        rw
            (
              get-put (put c.messages t₁ (unacknowledged c.user_id t₁ r₁ text₁)) t₂
                  (unacknowledged c.user_id t₂ r₂ text₂) t₁,
              distinct,
              get-put c.messages t₁ (unacknowledged c.user_id t₁ r₁ text₁) t₁,
              eq_refl t₁,
            )
            refl,
      )

-- When a client with no other message under way sends two messages, under two ids, and only the second
-- one is acknowledged, the text of the first one is shown under the id and the number of the second.
pub skipped_ack :
    (c : Client) (t₁ t₂ r₁ r₂ text₁ text₂ : String) (ack : Ack)
    → c.is_open ≡ true
    → c.pending_acks ≡ []
    → (t₁ == t₂) ≡ false
    → get
        (handle_ack ack (send_message t₂ r₂ text₂ (send_message t₁ r₁ text₁ c))).messages
        ack.message_id
      ≡ some (record {
        id = ack.message_id;
        sender_id = c.user_id;
        receiver_id = r₁;
        content = text₁;
        pts = ack.sender_pts;
        pending = false;
      })
skipped_ack c t₁ t₂ r₁ r₂ text₁ text₂ ack online idle distinct =
    let (pending, found) = two_sent c t₁ t₂ r₁ r₂ text₁ text₂ online idle distinct in
    ack_shows t₁ (t₂ ∷ []) ack (unacknowledged c.user_id t₁ r₁ text₁)
      (send_message t₂ r₂ text₂ (send_message t₁ r₁ text₁ c)) pending found
