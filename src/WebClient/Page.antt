-- ===== src/WebClient/Page.antt =====
-- web-client/public/app.js: the page that the client draws, beside the state of the client. The address
-- in the bar of the page and the scrolling are left out.
pub mod Bubbles
pub mod Shows
pub mod Since
pub mod Hidden
pub mod Restored
pub mod Status
mod Tests
use tinytelegram.Base.{
  ℕ, suc, ◌/◌, String, Bool, true, false, Option, none, some, List, [], ◌∷◌, ◌++◌, ◌==◌, ltb,
  if◌then◌else◌,
}
use tinytelegram.Base.Dict.{get}
use tinytelegram.Proto.{ChatMessage, PersistedMessage}
use tinytelegram.Gateway.Session.{Ack}
use tinytelegram.WebClient.{
  Client, Saved, Shown, connect, on_open, update_pts, handle_ack, pts_of, handle_message,
  send_message, on_close, reload, fresh, load_state,
}
use tinytelegram.WebClient.Runs.{
  Event, opens, acknowledges, receives, sends, closes, reconnects, reloads,
}

-- The parts of a template string.
pub data Piece : Type 0 where
  text : String → Piece
  number : ℕ → Piece

-- What stands in the list of messages. The id of a bubble is "msg-" with the id here.
pub data Element : Type 0 where
  bubble : (id class_name content : String) (meta : List Piece) → Element
  system : List Piece → Element

pub record View : Type 0 where
  pub client : Client
  pub page : List Element
  pub is_lit : Bool
  pub status : String
  pub has_chat : Bool
  pub has_overlay : Bool
  pub info_user : String
  pub info_pts : ℕ

abbrev pub meta_of : Bool → Shown → List Piece
meta_of is_sent msg =
    (if is_sent
      then text "You → " ∷ text msg.receiver_id ∷ []
      else text msg.sender_id ∷ text " → You" ∷ [])
    ++ ((if ltb 0 msg.pts then text " | pts: " ∷ number msg.pts ∷ [] else [])
        ++ (if msg.pending then text " | Sending..." ∷ [] else []))

unfoldable pub draw : String → String → Shown → Element
draw user_id id msg =
    let is_sent = msg.sender_id == user_id in
    bubble id (if is_sent then "message sent" else "message received") msg.content
      (meta_of is_sent msg)

-- displayMessage: what it appends to the page.
abbrev pub display_message : String → String → Option Shown → List Element
display_message user_id id none = []
display_message user_id id (some msg) = draw user_id id msg ∷ []

abbrev pub add_system_message : List Piece → List Element → List Element
add_system_message notice page = page ++ (system notice ∷ [])

-- getElementById finds the first element with an id.
unfoldable pub remove_bubble : String → List Element → List Element
remove_bubble id [] = []
remove_bubble id (system notice ∷ rest) = system notice ∷ remove_bubble id rest
remove_bubble id (bubble other class_name content meta ∷ rest) =
    let others = remove_bubble id rest in
    if other == id then rest else bubble other class_name content meta ∷ others

-- updatePts
unfoldable pub show_pts : ℕ → View → View
show_pts pts v = record v {
  client = update_pts pts v.client;
  info_pts = if ltb v.client.local_pts pts then pts else v.info_pts;
}

abbrev pub replace_bubble : Option Shown → String → String → Client → List Element → List Element
replace_bubble none temp_id id c page = page
replace_bubble (some msg) temp_id id c page =
    remove_bubble temp_id page ++ display_message c.user_id id (get c.messages id)

-- `before` is the client before the oldest temporary message is reconciled, and `after` afterwards.
abbrev pub reconcile_page : List String → Ack → Client → Client → List Element → List Element
reconcile_page [] ack before after page = page
reconcile_page (temp_id ∷ rest) ack before after page =
    replace_bubble (get before.messages temp_id) temp_id ack.message_id after page

unfoldable pub show_ack : Ack → View → View
unfolding show_pts
show_ack ack v =
    let v' = show_pts ack.sender_pts v in
    let c' = handle_ack ack v.client in
    record v' { client = c'; page = reconcile_page v'.client.pending_acks ack v'.client c' v'.page }

-- The variation selector after the sign is left out.
abbrev pub gap_notice : ℕ → ℕ → List Element
gap_notice local_pts pts =
    if ltb (suc local_pts) pts
    then system (
        text "⚠ Gap detected ("
        ∷ number local_pts
        ∷ text " → "
        ∷ number pts
        ∷ text "). Would call getDiff here."
        ∷ [])
      ∷ []
    else []

-- A frame with no message is only logged.
unfoldable pub show_message : Option ChatMessage → PersistedMessage → View → View
unfolding show_pts
show_message none m v = v
show_message (some msg) m v =
    let pts = pts_of v.client.user_id msg m in
    let c' = handle_message (some msg) m v.client in
    record (show_pts pts v) {
      client = c';
      page =
          (v.page ++ gap_notice v.client.local_pts pts)
          ++ display_message c'.user_id m.id (get c'.messages m.id);
    }

-- While no connection is open there is only an alert.
unfoldable pub show_sent : String → String → String → View → View
show_sent temp_id receiver_id content v =
    let c' = send_message temp_id receiver_id content v.client in
    record v {
      client = c';
      page =
          if v.client.is_open
          then v.page ++ display_message c'.user_id temp_id (get c'.messages temp_id)
          else v.page;
    }

unfoldable pub show_open : View → View
show_open v = record v {
  client = on_open v.client;
  page = add_system_message (text "Connected as " ∷ text v.client.user_id ∷ []) v.page;
  is_lit = true;
  status = "Connected";
  has_chat = true;
  info_user = v.client.user_id;
  info_pts = v.client.local_pts;
}

abbrev pub closing_notice : Option ℕ → List Piece
closing_notice none = text "Connection lost. Please refresh the page to reconnect." ∷ []
closing_notice (some delay) =
    text "Connection lost. Reconnecting in " ∷ number (delay / 1000) ∷ text "s..." ∷ []

abbrev pub closing_overlay : Option ℕ → Bool → Bool
closing_overlay none before = before
closing_overlay (some delay) before = true

unfoldable pub show_close : View → View
show_close v =
    let (delay, c') = on_close v.client in
    record v {
      client = c';
      page = add_system_message (closing_notice delay) v.page;
      is_lit = false;
      status = "Disconnected";
      has_overlay = closing_overlay delay v.has_overlay;
    }

-- The timer of onClose.
unfoldable pub show_reconnect : View → View
show_reconnect v = record v {
  client = connect v.client.user_id v.client.gateway_url v.client;
  is_lit = false;
  status = "Connecting...";
  has_overlay = false;
}

-- The page is loaded again, and the same user logs in: nothing is drawn.
unfoldable pub show_reload : View → View
show_reload v = record {
  client = reload v.client;
  page = [];
  is_lit = false;
  status = "Connecting...";
  has_chat = false;
  has_overlay = false;
  info_user = "-";
  info_pts = 0;
}

unfoldable pub show_step : Event → View → View
unfolding show_open show_ack show_message show_sent show_close show_reconnect show_reload
show_step opens v = show_open v
show_step (acknowledges ack) v = show_ack ack v
show_step (receives m) v = show_message m.message m v
show_step (sends temp_id receiver_id content) v = show_sent temp_id receiver_id content v
show_step closes v = show_close v
show_step reconnects v = show_reconnect v
show_step reloads v = show_reload v

unfoldable pub show_run : List Event → View → View
show_run [] v = v
show_run (e ∷ es) v = show_run es (show_step e v)

-- A frame, as JSON.parse reads it. A field that is missing is empty, 0 or none.
pub record Data : Type 0 where
  pub type : String
  pub message_id : String
  pub id : String
  pub message : Option ChatMessage
  pub receiver_pts : ℕ
  pub sender_pts : ℕ
  pub server_timestamp : ℕ

-- What a frame is to the client; one that JSON.parse rejects is logged.
unfoldable pub on_message : Option Data → View → View
unfolding show_ack show_message
on_message none v = v
on_message (some data') v =
    if data'.type == "ack"
    then show_ack (record { sender_pts = data'.sender_pts; message_id = data'.message_id }) v
    else show_message data'.message
        (record {
          id = data'.id;
          message = data'.message;
          receiver_pts = data'.receiver_pts;
          sender_pts = data'.sender_pts;
          server_timestamp = data'.server_timestamp;
        })
        v
