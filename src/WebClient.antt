-- ===== src/WebClient.antt =====
-- web-client/public/app.js: the state of the client. What it shows on the page is in Page.
pub mod Runs
pub mod Acks
pub mod Reload
pub mod Page
pub mod Sent
mod Tests
use tinytelegram.Base.{
  ℕ, suc, ◌*◌, String, Bool, true, false, Option, none, some, List, [], ◌∷◌, ◌++◌, ◌==◌, ltb,
  if◌then◌else◌,
}
use tinytelegram.Base.Dict.{Dict, get, put, delete}
use tinytelegram.Proto.{ChatMessage, PersistedMessage}
use tinytelegram.Gateway.Session.{Ack}

-- A message of the page. A number that is missing is 0: the client treats the two alike.
pub record Shown : Type 0 where
  pub id : String
  pub sender_id : String
  pub receiver_id : String
  pub content : String
  pub pts : ℕ
  pub pending : Bool

-- What localStorage holds.
pub record Saved : Type 0 where
  pub user_id : String
  pub gateway_url : String
  pub local_pts : ℕ
  pub messages : Dict Shown

pub record Client : Type 0 where
  pub user_id : String
  pub gateway_url : String
  pub is_open : Bool
  pub local_pts : ℕ
  pub messages : Dict Shown
  pub pending_acks : List String
  pub reconnect_attempts : ℕ
  pub saved : Option Saved

abbrev pub max_reconnect_attempts : ℕ
max_reconnect_attempts = 5

abbrev pub reconnect_delay : ℕ
reconnect_delay = 2000

-- The page before any login.
abbrev pub fresh : Option Saved → Client
fresh saved = record {
  user_id = "";
  gateway_url = "";
  is_open = false;
  local_pts = 0;
  messages = [];
  pending_acks = [];
  reconnect_attempts = 0;
  saved = saved;
}

unfoldable pub save_state : Client → Client
save_state c = record c {
  saved = some (record {
    user_id = c.user_id;
    gateway_url = c.gateway_url;
    local_pts = c.local_pts;
    messages = c.messages;
  });
}

unfoldable pub load_state : Option Saved → Client → Client
load_state none c = c
load_state (some st) c = record c { local_pts = st.local_pts; messages = st.messages }

unfoldable pub connect : String → String → Client → Client
connect user_id gateway_url c = record c {
  user_id = user_id;
  gateway_url = gateway_url;
  is_open = false;
}

unfoldable pub on_open : Client → Client
unfolding save_state
on_open c = save_state (record c { is_open = true; reconnect_attempts = 0 })

unfoldable pub update_pts : ℕ → Client → Client
unfolding save_state
update_pts new_pts c =
    if ltb c.local_pts new_pts then save_state (record c { local_pts = new_pts }) else c

-- The message that was shown under `temp_id` takes the id and the number of the acknowledgement.
unfoldable pub reconcile : Option Shown → String → Ack → Client → Client
reconcile none temp_id ack c = c
reconcile (some msg) temp_id ack c = record c {
  messages =
      put (delete c.messages temp_id) ack.message_id
        (record msg { id = ack.message_id; pts = ack.sender_pts; pending = false });
}

unfoldable pub shift_pending : List String → Ack → Client → Client
unfolding reconcile
shift_pending [] ack c = c
shift_pending (temp_id ∷ rest) ack c =
    let c' = record c { pending_acks = rest } in reconcile (get c'.messages temp_id) temp_id ack c'

unfoldable pub handle_ack : Ack → Client → Client
unfolding shift_pending update_pts
handle_ack ack c = let c' = update_pts ack.sender_pts c in shift_pending c'.pending_acks ack c'

-- Which of the two numbers applies to the user.
unfoldable pub pts_of : String → ChatMessage → PersistedMessage → ℕ
pts_of user_id msg m =
    if msg.receiver_id == user_id
    then m.receiver_pts
    else if msg.sender_id == user_id
    then m.sender_pts
    else 0

unfoldable pub handle_message : Option ChatMessage → PersistedMessage → Client → Client
unfolding update_pts save_state
handle_message none m c = c
handle_message (some msg) m c =
    let pts = pts_of c.user_id msg m in
    let c' = update_pts pts c in
    save_state (record c' {
      messages = put c'.messages m.id (record {
        id = m.id;
        sender_id = msg.sender_id;
        receiver_id = msg.receiver_id;
        content = msg.content;
        pts = pts;
        pending = false;
      });
    })

unfoldable pub handle_incoming_message : PersistedMessage → Client → Client
unfolding handle_message
handle_incoming_message m c = handle_message m.message m c

-- `temp_id` is the new temporary id; while no connection is open there is only an alert.
unfoldable pub send_message : String → String → String → Client → Client
send_message temp_id receiver_id content c =
    if c.is_open
    then record c {
      messages = put c.messages temp_id (record {
        id = temp_id;
        sender_id = c.user_id;
        receiver_id = receiver_id;
        content = content;
        pts = 0;
        pending = true;
      });
      pending_acks = c.pending_acks ++ (temp_id ∷ []);
    }
    else c

-- The delay of the next attempt to connect, if there is one.
unfoldable pub on_close : Client → Option ℕ × Client
on_close c =
    if ltb c.reconnect_attempts max_reconnect_attempts
    then (
      some (reconnect_delay * suc c.reconnect_attempts),
      record c { is_open = false; reconnect_attempts = suc c.reconnect_attempts },
    )
    else (none, record c { is_open = false })

-- A field of the login form: what is saved replaces what it holds, unless that is empty.
abbrev pub filled : String → String → String
filled saved typed = if saved == "" then typed else saved

-- The user and the gateway of the login form when a page is loaded.
unfoldable pub load_form : Option Saved → String → String → String × String
load_form none user_id gateway_url = (user_id, gateway_url)
load_form (some st) user_id gateway_url =
    (filled st.user_id user_id, filled st.gateway_url gateway_url)

-- The page is loaded again, and the user logs in with the form as it is filled; where nothing is saved
-- for it, with what was typed before.
unfoldable pub reload : Client → Client
unfolding load_state connect load_form
reload c =
    let (user_id, gateway_url) = load_form c.saved c.user_id c.gateway_url in
    connect user_id gateway_url (load_state c.saved (fresh c.saved))
