-- ===== src/WebClient/Page/Status.antt =====
-- The line with the status, and the bar with the user and the number.
use tinytelegram.Base.{ℕ, ◌≡◌, refl, arith, true, Option, none, some, List, [], ◌∷◌, ◌∙◌, sym, ap}
use tinytelegram.Proto.{ChatMessage, PersistedMessage}
use tinytelegram.WebClient.{
  connect, on_open, save_state, update_pts, handle_ack, pts_of, handle_message,
  handle_incoming_message, send_message, on_close, reload,
}
use tinytelegram.WebClient.Runs.{
  shift_keeps, Event, opens, acknowledges, receives, sends, closes, reconnects, reloads, step, run,
  highest, IsSaved, run-pts,
}
use tinytelegram.WebClient.Page.{
  View, show_pts, show_ack, show_message, show_sent, show_open, show_close, show_reconnect,
  show_reload, show_step, show_run,
}

-- The dot is lit exactly while the connection is open, and then the page shows the chat with the user
-- and the number of the client.
pub record IsCurrent (v : View) : Type 0 where
  pub lit : v.is_lit ≡ v.client.is_open
  pub chat : v.client.is_open ≡ true → v.has_chat ≡ true
  pub user : v.client.is_open ≡ true → v.info_user ≡ v.client.user_id
  pub number : v.client.is_open ≡ true → v.info_pts ≡ v.client.local_pts

pts-IsCurrent : (n : ℕ) (v : View) → IsCurrent v → IsCurrent (show_pts n v)
unfolding show_pts update_pts save_state
pts-IsCurrent n v h = ground arith

message-IsCurrent :
    (o : Option ChatMessage) (m : PersistedMessage) (v : View)
    → IsCurrent v
    → IsCurrent (show_message o m v)
unfolding show_message show_pts handle_message save_state
message-IsCurrent none m v h = h
message-IsCurrent (some msg) m v h =
    let later = pts-IsCurrent (pts_of v.client.user_id msg m) v h in
    record { lit = later.lit; chat = later.chat; user = later.user; number = later.number }

step-IsCurrent : (e : Event) (v : View) → IsCurrent v → IsCurrent (show_step e v)
unfolding show_step show_open show_ack show_message show_sent show_close show_reconnect show_reload
    on_open save_state connect handle_ack send_message on_close show_pts reload
step-IsCurrent opens v h = ground arith
step-IsCurrent (acknowledges ack) v h =
    let v' = show_pts ack.sender_pts v in
    let later = pts-IsCurrent ack.sender_pts v h in
    let kept = shift_keeps v'.client.pending_acks ack v'.client in
    record {
      lit = later.lit ∙ sym kept.4;
      chat = λ open_now. later.chat (sym kept.4 ∙ open_now);
      user = λ open_now. later.user (sym kept.4 ∙ open_now) ∙ sym kept.2;
      number = λ open_now. later.number (sym kept.4 ∙ open_now) ∙ sym kept.0;
    }
step-IsCurrent (receives m) v h = message-IsCurrent m.message m v h
step-IsCurrent (sends temp_id receiver_id content) v h = ground arith
step-IsCurrent closes v h = ground arith
step-IsCurrent reconnects v h = ground arith
step-IsCurrent reloads v h = ground arith

pub run-IsCurrent : (es : List Event) (v : View) → IsCurrent v → IsCurrent (show_run es v)
unfolding show_run
run-IsCurrent [] v h = h
run-IsCurrent (e ∷ es) v h = run-IsCurrent es (show_step e v) (step-IsCurrent e v h)

show_message-handle_message :
    (o : Option ChatMessage) (m : PersistedMessage) (v : View)
    → (show_message o m v).client ≡ handle_message o m v.client
unfolding show_message handle_message
show_message-handle_message none m v = refl
show_message-handle_message (some msg) m v = refl

show_step-step : (e : Event) (v : View) → (show_step e v).client ≡ step e v.client
unfolding show_step show_open show_ack show_sent show_close show_reconnect show_reload step
    handle_incoming_message
show_step-step opens v = refl
show_step-step (acknowledges ack) v = refl
show_step-step (receives m) v = show_message-handle_message m.message m v
show_step-step (sends temp_id receiver_id content) v = refl
show_step-step closes v = refl
show_step-step reconnects v = refl
show_step-step reloads v = refl

-- The client beside the page takes the same steps as without it.
pub show_run-run : (es : List Event) (v : View) → (show_run es v).client ≡ run es v.client
unfolding show_run run
show_run-run [] v = refl
show_run-run (e ∷ es) v = show_run-run es (show_step e v) ∙ ap (run es) (show_step-step e v)

-- Through any events, page loads included: if the status line and the bar are those of the client, and
-- what was saved before had its number, then the dot is lit exactly while the connection is open, and
-- an open connection comes with the chat on the page, the user of the client, and the highest of the
-- numbers that the client had and that acknowledgements and messages brought.
pub bar_shows :
    (es : List Event) (v : View)
    → IsCurrent v
    → IsSaved v.client
    → let v' = show_run es v in
      (v'.is_lit ≡ v'.client.is_open)
      × (v'.client.is_open ≡ true
          → (v'.has_chat ≡ true)
            × (v'.info_user ≡ v'.client.user_id)
            × (v'.info_pts ≡ highest v.client.user_id v.client.local_pts es))
bar_shows es v current saved =
    let later = run-IsCurrent es v current in
    let pts = ap (λ c. c.local_pts) (show_run-run es v) ∙ run-pts es v.client saved in
    (later.lit, λ is_open. (later.chat is_open, later.user is_open, later.number is_open ∙ pts))
