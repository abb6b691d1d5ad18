-- ===== src/WebClient/Tests.antt =====
-- The theorems about the client at concrete inputs.
use tinytelegram.Base.{
  String, ℕ, ◌≡◌, ◌≤◌, ◌↔◌, refl, arith, true, false, none, some, List, [], ◌∷◌,
}
use tinytelegram.Base.Dict.{get}
use tinytelegram.Proto.{ChatMessage, PersistedMessage}
use tinytelegram.Gateway.Session.{Ack}
use tinytelegram.WebClient.{
  Client, pts_of, send_message, handle_ack, on_close, handle_incoming_message, load_form, reload,
  max_reconnect_attempts,
}
use tinytelegram.WebClient.Runs.{
  Event, opens, acknowledges, receives, sends, closes, reconnects, reloads, run, highest, IsSaved,
  run-pts, reconnect_bounded,
}
use tinytelegram.WebClient.Acks.{skipped_ack, acknowledged, unacknowledged}
use tinytelegram.WebClient.Reload.{received_as, reload_restores, acked_pending_again}

abbrev alice : Client
alice = record {
  user_id = "alice";
  gateway_url = "ws://gw1";
  is_open = true;
  local_pts = 0;
  messages = [];
  pending_acks = [];
  reconnect_attempts = 0;
  saved = none;
}

abbrev ack : Ack
ack = record { sender_pts = 4; message_id = "m4" }

abbrev hi : ChatMessage
hi = record { sender_id = "bob"; receiver_id = "alice"; content = "hi"; client_timestamp = 0 }

abbrev from_bob : PersistedMessage
from_bob = record {
  id = "m3";
  message = some hi;
  receiver_pts = 3;
  sender_pts = 9;
  server_timestamp = 0;
}

abbrev events : List Event
events =
    sends "t1" "bob" "hello"
    ∷ acknowledges ack
    ∷ receives from_bob
    ∷ closes
    ∷ reconnects
    ∷ opens
    ∷ reloads
    ∷ []

alice-IsSaved : IsSaved alice
unfolding IsSaved
alice-IsSaved = (refl, tt)

run-pts_example : (run events alice).local_pts ≡ highest "alice" 0 events
run-pts_example = run-pts events alice alice-IsSaved

-- The number of the acknowledgement is the highest, and a page load keeps it.
highest_four : highest "alice" 0 events ≡ 4
unfolding pts_of
highest_four = refl

after_two_failures :
    let c' = run (closes ∷ closes ∷ []) alice in
    ((d : ℕ) → (on_close c').0 ≡ some d → d ≤ 10000)
    × (((on_close c').0 ≡ none) ↔ (c'.reconnect_attempts ≡ max_reconnect_attempts))
after_two_failures = reconnect_bounded (closes ∷ closes ∷ []) alice (omega arith)

second_acked :
    let sent = send_message "t2" "bob" "second" (send_message "t1" "bob" "first" alice) in
    get (handle_ack ack sent).messages "m4"
    ≡ some (record {
      id = "m4";
      sender_id = "alice";
      receiver_id = "bob";
      content = "first";
      pts = 4;
      pending = false;
    })
second_acked = skipped_ack alice "t1" "t2" "bob" "bob" "first" "second" ack refl refl refl

reload_restores_example :
    let c' = handle_incoming_message from_bob alice in
    ((user_id gateway_url : String)
      → load_form c'.saved user_id gateway_url ≡ ("alice", "ws://gw1"))
    × ((reload c').user_id ≡ "alice")
    × ((reload c').local_pts ≡ c'.local_pts)
    × ((reload c').messages ≡ c'.messages)
    × (get (reload c').messages "m3" ≡ some (received_as from_bob hi (pts_of "alice" hi from_bob)))
reload_restores_example = reload_restores from_bob hi alice refl refl refl

acked_again :
    let acked = handle_ack ack (send_message "t1" "bob" "first" alice) in
    let shown = unacknowledged "alice" "t1" "bob" "first" in
    (get acked.messages "m4" ≡ some (acknowledged ack shown))
    × (get (reload acked).messages "t1" ≡ some shown)
    × ((reload acked).pending_acks ≡ [])
    × (get (reload acked).messages "m4" ≡ get alice.messages "m4")
acked_again = acked_pending_again "t1" "bob" "first" ack alice refl refl refl (omega arith)
