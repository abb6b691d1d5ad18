-- ===== src/WebClient/Sent/Tests.antt =====
-- The theorem about messages that are sent at concrete inputs.
use tinytelegram.Base.{
  ℕ, suc, ◌≡◌, refl, String, true, none, some, List, [], ◌∷◌, ◌++◌, map, eqb, All, if◌then◌else◌,
}
use tinytelegram.Base.Dict.{get, put}
use tinytelegram.Base.Exec.{ok}
use tinytelegram.Gateway.Conns.{
  no_conns, unregister_conn, close_found, deliver_local, send_found, open_conn, register_conn, set,
}
use tinytelegram.Gateway.Session.{
  Services, World, Effect, IncomingMessage, ack_of, web_socket_handler, finish, get_user_gateway,
  deliver, connect, register_user,
}
use tinytelegram.Gateway.Session.Acks.{StoredFor, acks_in, stored_in}
use tinytelegram.WebClient.{Client}
use tinytelegram.WebClient.Runs.{acknowledges, run}
use tinytelegram.WebClient.Sent.{Outgoing, send_event, ShownStored}
use tinytelegram.WebClient.Sent.Answered.{sent_shown}

abbrev hello : IncomingMessage
hello = record { receiver_id = "bob"; content = "hello" }

abbrev bye : IncomingMessage
bye = record { receiver_id = "bob"; content = "bye" }

abbrev two : List Outgoing
two = record { temp_id = "t1"; incoming = hello } ∷ record { temp_id = "t2"; incoming = bye } ∷ []

-- A frame is the text, for bob.
abbrev marshal : IncomingMessage → String
marshal m = m.content

-- The state counts the messages, and nobody is at a gateway.
abbrev services : Services
services = record {
  State = ℕ;
  set_key = λ key value ttl n. (ok tt, n);
  del_key = λ key n. (ok tt, n);
  get_key = λ key n. (ok "", n);
  persist_message = λ msg n. (
    ok (record {
      id = if eqb n 0 then "m1" else "m2";
      message = some msg;
      receiver_pts = suc n;
      sender_pts = suc n;
      server_timestamp = 0;
    }),
    suc n,
  );
  write_json = λ ack n. (ok tt, n);
  spawn_peer_delivery = λ target m n. n;
  unmarshal = λ raw. ok (record { receiver_id = "bob"; content = raw });
  unix_milli = λ n. 0;
}

abbrev start : World services
start = record { outside = 0; conns = no_conns }

abbrev alice : Client
alice = record {
  user_id = "alice";
  gateway_url = "ws://gw1";
  is_open = true;
  local_pts = 0;
  messages = [];
  pending_acks = [];
  reconnect_attempts = 0;
  saved = none;
}

abbrev effects : List Effect
effects =
    (web_socket_handler services "gw1:9000" "alice" (some ("hello" ∷ "bye" ∷ [])) start).effects

sent_shown_example :
    StoredFor "alice" (hello ∷ bye ∷ []) (stored_in effects)
    × ((run (map send_event two ++ map acknowledges (acks_in effects)) alice).pending_acks ≡ [])
    × All
        (ShownStored (run (map send_event two ++ map acknowledges (acks_in effects)) alice))
        (stored_in effects)
unfolding web_socket_handler finish unregister_conn close_found get get_user_gateway deliver
    deliver_local send_found connect open_conn register_conn register_user put set ack_of
sent_shown_example =
    sent_shown services "gw1:9000" marshal two alice start refl refl refl (refl, (refl, tt)) refl
      (
        ((refl, tt), (tt, tt)),
        ((refl, tt), (tt, tt)),
        ((refl, (refl, tt)), ((refl, (refl, tt)), tt)),
      )
