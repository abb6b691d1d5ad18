-- ===== src/WebClient/Page/Tests.antt =====
-- The theorems about the page at concrete inputs.
use tinytelegram.Base.{◌≡◌, refl, String, Bool, true, false, none, some, List, [], ◌∷◌, ◌==◌}
use tinytelegram.Base.Dict.{get, put, delete}
use tinytelegram.Proto.{ChatMessage, PersistedMessage}
use tinytelegram.Gateway.Session.{Ack}
use tinytelegram.WebClient.{
  Client, Shown, pts_of, update_pts, send_message, on_open, reload, handle_ack, handle_message,
}
use tinytelegram.WebClient.Runs.{Event, opens, acknowledges, receives, sends, highest, IsSaved}
use tinytelegram.WebClient.Page.{
  View, Data, show_reload, show_run, show_step, remove_bubble, draw, text, number, system, bubble,
  on_message,
}
use tinytelegram.WebClient.Page.Bubbles.{bubbles_of}
use tinytelegram.WebClient.Page.Shows.{IsShown}
use tinytelegram.WebClient.Page.Since.{page_shows}
use tinytelegram.WebClient.Page.Restored.{restored_hidden}
use tinytelegram.WebClient.Page.Status.{IsCurrent, bar_shows}

abbrev old : Shown
old = record {
  id = "m1";
  sender_id = "bob";
  receiver_id = "alice";
  content = "hi";
  pts = 1;
  pending = false;
}

abbrev alice : Client
alice = record {
  user_id = "alice";
  gateway_url = "ws://gw1";
  is_open = true;
  local_pts = 1;
  messages = put [] "m1" old;
  pending_acks = [];
  reconnect_attempts = 0;
  saved = some (record {
    user_id = "alice";
    gateway_url = "ws://gw1";
    local_pts = 1;
    messages = put [] "m1" old;
  });
}

abbrev before : View
before = record {
  client = alice;
  page = [];
  is_lit = true;
  status = "Connected";
  has_chat = true;
  has_overlay = false;
  info_user = "alice";
  info_pts = 1;
}

abbrev ack : Ack
ack = record { sender_pts = 2; message_id = "m2" }

abbrev to_herself : ChatMessage
to_herself = record {
  sender_id = "alice";
  receiver_id = "alice";
  content = "note";
  client_timestamp = 0;
}

abbrev note : PersistedMessage
note = record {
  id = "m2";
  message = some to_herself;
  receiver_pts = 3;
  sender_pts = 2;
  server_timestamp = 0;
}

abbrev events : List Event
events = opens ∷ sends "t1" "alice" "note" ∷ acknowledges ack ∷ receives note ∷ []

is_temp : String → Bool
is_temp id = id == "t1"

page_shows_example :
    IsShown "alice"
      (put [] "m1" old)
      (show_run events (show_reload before)).client.messages
      (show_run events (show_reload before)).page
      "m2"
unfolding is_temp show_reload show_run show_step update_pts send_message on_open reload get put
    remove_bubble draw handle_ack delete pts_of handle_message
page_shows_example = page_shows is_temp events before (tt, ((refl, refl), (refl, (refl, tt)))) "m2"

restored_hidden_example :
    (get (show_run events (show_reload before)).client.messages "m1" ≡ some old)
    × (bubbles_of "m1" (show_run events (show_reload before)).page ≡ [])
unfolding show_reload reload get put
restored_hidden_example =
    restored_hidden "m1" old events before refl (refl, (refl, (refl, (refl, tt))))

alice-IsSaved : IsSaved alice
unfolding IsSaved
alice-IsSaved = (refl, refl)

before-IsCurrent : IsCurrent before
before-IsCurrent = record {
  lit = refl;
  chat = λ is_open. refl;
  user = λ is_open. refl;
  number = λ is_open. refl;
}

bar_of_alice :
    ((show_run events before).is_lit ≡ (show_run events before).client.is_open)
    × ((show_run events before).client.is_open ≡ true
        → ((show_run events before).has_chat ≡ true)
          × ((show_run events before).info_user ≡ (show_run events before).client.user_id)
          × ((show_run events before).info_pts ≡ highest "alice" 1 events))
bar_of_alice = bar_shows events before before-IsCurrent alice-IsSaved

-- A message to oneself is shown twice, under one id, although the client has it once.
shown_twice :
    (show_run events (show_reload before)).page
    ≡ system (text "Connected as " ∷ text "alice" ∷ [])
      ∷ bubble "m2" "message sent" "note"
          (text "You → " ∷ text "alice" ∷ text " | pts: " ∷ number 2 ∷ [])
      ∷ bubble "m2" "message sent" "note"
          (text "You → " ∷ text "alice" ∷ text " | pts: " ∷ number 3 ∷ [])
      ∷ []
unfolding show_reload show_run show_step update_pts send_message on_open reload get put
    remove_bubble draw handle_ack delete pts_of handle_message
shown_twice = refl

abbrev ack_frame : Data
ack_frame = record {
  type = "ack";
  message_id = "m2";
  id = "";
  message = none;
  receiver_pts = 0;
  sender_pts = 2;
  server_timestamp = 0;
}

abbrev note_frame : Data
note_frame = record {
  type = "";
  message_id = "";
  id = "m2";
  message = some to_herself;
  receiver_pts = 3;
  sender_pts = 2;
  server_timestamp = 0;
}

frames_told :
    (on_message (some ack_frame) before ≡ show_step (acknowledges ack) before)
    × (on_message (some note_frame) before ≡ show_step (receives note) before)
unfolding on_message show_step
frames_told = (refl, refl)
