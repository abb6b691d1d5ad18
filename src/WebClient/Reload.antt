-- ===== src/WebClient/Reload.antt =====
-- What a page load brings back from localStorage: what was shown at the last save.
use tinytelegram.Base.{
  ℕ, ◌<◌, ◌≡◌, String, true, false, some, [], ◌==◌, refl, arith, ap, ◌∙◌, eq_refl, lt→ltb,
}
use tinytelegram.Base.Dict.{get, put, delete, get-put}
use tinytelegram.Proto.{ChatMessage, PersistedMessage}
use tinytelegram.Gateway.Session.{Ack}
use tinytelegram.WebClient.{
  Client, Shown, save_state, load_state, connect, update_pts, pts_of, reconcile, shift_pending,
  handle_ack, handle_message, handle_incoming_message, send_message, load_form, reload,
}
use tinytelegram.WebClient.Acks.{acknowledged, unacknowledged}

-- A page load after a save: the login form, whatever it held, and what is loaded.
reload-save :
    (c : Client)
    → (c.user_id == "") ≡ false
    → (c.gateway_url == "") ≡ false
    → let saved = save_state c in
      ((user_id gateway_url : String)
        → load_form saved.saved user_id gateway_url ≡ (c.user_id, c.gateway_url))
      × ((reload saved).user_id ≡ c.user_id)
      × ((reload saved).local_pts ≡ c.local_pts)
      × ((reload saved).messages ≡ c.messages)
unfolding reload save_state load_state load_form connect
reload-save c named reachable =
    ((λ user_id gateway_url. rw (named, reachable) refl), rw named refl, refl, refl)

pub update-user_id : (n : ℕ) (c : Client) → (update_pts n c).user_id ≡ c.user_id
unfolding update_pts save_state
update-user_id n c = ground arith

update-gateway_url : (n : ℕ) (c : Client) → (update_pts n c).gateway_url ≡ c.gateway_url
unfolding update_pts save_state
update-gateway_url n c = ground arith

abbrev pub received_as : PersistedMessage → ChatMessage → ℕ → Shown
received_as m msg pts = record {
  id = m.id;
  sender_id = msg.sender_id;
  receiver_id = msg.receiver_id;
  content = msg.content;
  pts = pts;
  pending = false;
}

-- When a message has come to a client with a user and a gateway, then a page load fills the login form
-- with the two, whatever it held, and brings back the user, the number and all messages, and this one
-- among them, with the number that applies to the user.
pub reload_restores :
    (m : PersistedMessage) (msg : ChatMessage) (c : Client)
    → m.message ≡ some msg
    → (c.user_id == "") ≡ false
    → (c.gateway_url == "") ≡ false
    → let c' = handle_incoming_message m c in
      ((user_id gateway_url : String)
        → load_form c'.saved user_id gateway_url ≡ (c.user_id, c.gateway_url))
      × ((reload c').user_id ≡ c.user_id)
      × ((reload c').local_pts ≡ c'.local_pts)
      × ((reload c').messages ≡ c'.messages)
      × (get (reload c').messages m.id ≡ some (received_as m msg (pts_of c.user_id msg m)))
unfolding handle_incoming_message handle_message pts_of
reload_restores m msg c has named reachable =
    let shown = received_as m msg (pts_of c.user_id msg m) in
    let c₁ = update_pts (pts_of c.user_id msg m) c in
    let same_user = update-user_id (pts_of c.user_id msg m) c in
    let same_gateway = update-gateway_url (pts_of c.user_id msg m) c in
    let (form, user, number, messages) =
      reload-save (record c₁ { messages = put c₁.messages m.id shown }) (rw same_user named)
        (rw same_gateway reachable) in
    rw has (
      (λ user_id gateway_url.
          form user_id gateway_url
          ∙ ap (λ u. (u, c₁.gateway_url)) same_user
          ∙ ap (λ g. (c.user_id, g)) same_gateway),
      user ∙ same_user,
      number,
      messages,
      ap (λ d. get d m.id) messages ∙ get-put c₁.messages m.id shown m.id ∙ rw (eq_refl m.id) refl,
    )

-- When a connected client with no message under way sends one, and its acknowledgement brings a higher
-- number, then the message is shown as acknowledged; but after a page load it is shown as under way,
-- with its temporary id, no acknowledgement is awaited, and under its id there is what was
-- there before.
pub acked_pending_again :
    (temp_id receiver_id content : String) (ack : Ack) (c : Client)
    → c.is_open ≡ true
    → c.pending_acks ≡ []
    → (ack.message_id == temp_id) ≡ false
    → c.local_pts < ack.sender_pts
    → let sent = send_message temp_id receiver_id content c in
      let acked = handle_ack ack sent in
      let shown = unacknowledged c.user_id temp_id receiver_id content in
      (get acked.messages ack.message_id ≡ some (acknowledged ack shown))
      × (get (reload acked).messages temp_id ≡ some shown)
      × ((reload acked).pending_acks ≡ [])
      × (get (reload acked).messages ack.message_id ≡ get c.messages ack.message_id)
unfolding reload save_state load_state connect send_message handle_ack update_pts shift_pending
    reconcile
acked_pending_again temp_id receiver_id content ack c is_open none_sent other higher =
    let shown = unacknowledged c.user_id temp_id receiver_id content in
    let saved = put c.messages temp_id shown in
    rw
      (
        is_open,
        none_sent,
        lt→ltb c.local_pts ack.sender_pts higher,
        get-put c.messages temp_id shown temp_id,
        eq_refl temp_id,
      )
      (
        ground (
          arith,
          get-put (delete saved temp_id) ack.message_id (acknowledged ack shown) ack.message_id,
          eq_refl ack.message_id,
        ),
        ground (arith, get-put c.messages temp_id shown temp_id, eq_refl temp_id),
        refl,
        ground (arith, get-put c.messages temp_id shown ack.message_id, other),
      )
