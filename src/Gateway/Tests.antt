-- ===== src/Gateway/Tests.antt =====
-- The theorems about the gateway at concrete inputs.
use tinytelegram.Base.{
  ℕ, suc, ◌≡◌, refl, arith, String, true, false, none, some, List, [], ◌∷◌, ◌==◌, if◌then◌else◌,
}
use tinytelegram.Base.Dict.{get, put}
use tinytelegram.Base.Exec.{ok, err}
use tinytelegram.Proto.{ChatMessage, PersistedMessage}
use tinytelegram.Gateway.Conns.{
  Conns, no_conns, set, make_chan, register_conn, close_found, unregister_conn, look_up, try_send,
  send_found, deliver_local, open_conn,
}
use tinytelegram.Gateway.Conns.Step.{
  Reach, here, next, connects, sends, IsWell, has_room, no_panic, no_conns-IsWell,
}
use tinytelegram.Gateway.Conns.Handover.{second_conn_closed, late_send_panics}
use tinytelegram.Gateway.Session.{
  Services, World, stored, acked, sent_here, ack_of, web_socket_handler, finish, get_user_gateway,
  deliver, connect, register_user,
}
use tinytelegram.Gateway.Session.Pace.{IsPaced, idle, session-IsPaced}
use tinytelegram.Gateway.Session.Cleanup.{handler_clean}

abbrev hello : ChatMessage
hello = record { sender_id = "alice"; receiver_id = "bob"; content = "hello"; client_timestamp = 0 }

abbrev stored_as : ChatMessage → ℕ → PersistedMessage
stored_as msg pts = record {
  id = "m";
  message = some msg;
  receiver_pts = pts;
  sender_pts = pts;
  server_timestamp = 0;
}

abbrev first : PersistedMessage
first = stored_as hello 1

-- bob is connected.
abbrev with_bob : Conns
with_bob = open_conn "bob" no_conns

abbrev with_first : Conns
with_first = (try_send 0 first with_bob).1

abbrev to_first : Reach no_conns with_first
unfolding open_conn make_chan register_conn set try_send
to_first = next (next here (connects "bob" refl)) (sends 0 first true (omega arith) refl)

no_panic_example :
    ((unregister_conn "bob" with_first).0 ≡ ok tt)
    × ((deliver_local "bob" first with_first).0
        ≡ ok (has_room (get with_first.conn_map "bob") with_first))
no_panic_example = no_panic with_first "bob" first to_first

room_for_bob : has_room (get with_first.conn_map "bob") with_first ≡ true
unfolding open_conn make_chan register_conn set try_send has_room get put
room_for_bob = refl

second_closed :
    let reopened = open_conn "bob" (open_conn "bob" no_conns) in
    let ended = unregister_conn "bob" reopened in
    (ended.0 ≡ ok tt)
    × ((ended.1.chans (open_conn "bob" no_conns).next).is_closed ≡ true)
    × ((deliver_local "bob" first ended.1).0 ≡ ok false)
second_closed = second_conn_closed "bob" first no_conns

bob_found : look_up "bob" with_bob ≡ some 0
unfolding open_conn make_chan register_conn look_up get put
bob_found = refl

bob_open : (with_bob.chans 0).is_closed ≡ false
unfolding open_conn make_chan register_conn set
bob_open = refl

late_send : (try_send 0 first (unregister_conn "bob" with_bob).1).0 ≡ err "send on closed channel"
late_send = late_send_panics "bob" first with_bob 0 bob_found bob_open

-- Every user is at this gateway, the state counts the messages, and every frame is a text for bob.
abbrev services : Services
services = record {
  State = ℕ;
  set_key = λ key value ttl n. (ok tt, n);
  del_key = λ key n. (ok tt, n);
  get_key = λ key n. (ok "gw1:9000", n);
  persist_message = λ msg n. (ok (stored_as msg (suc n)), suc n);
  write_json = λ ack n. (ok tt, n);
  spawn_peer_delivery = λ target m n. n;
  unmarshal = λ raw. ok (record { receiver_id = "bob"; content = raw });
  unix_milli = λ n. 0;
}

abbrev start : World services
start = record { outside = 0; conns = no_conns }

abbrev two_frames : List String
two_frames = "hello" ∷ "" ∷ []

session-IsPaced_example :
    IsPaced "alice" idle
      (web_socket_handler services "gw1:9000" "alice" (some two_frames) start).effects
session-IsPaced_example = session-IsPaced services "gw1:9000" "alice" (some two_frames) start

session_effects :
    (web_socket_handler services "gw1:9000" "alice" (some two_frames) start).effects
    ≡ (stored hello first ∷ acked (ack_of first) ∷ sent_here "bob" first ∷ [])
unfolding web_socket_handler finish unregister_conn close_found get get_user_gateway deliver
    deliver_local send_found connect open_conn register_conn register_user put set ack_of
session_effects = refl

handler_clean_example :
    let t = web_socket_handler services "gw1:9000" "alice" (some two_frames) start in
    (t.outcome ≡ ok tt)
    × IsWell t.world.conns
    × (get t.world.conns.conn_map "bob"
        ≡ (if "bob" == "alice" then none else get no_conns.conn_map "bob"))
handler_clean_example =
    handler_clean services "gw1:9000" "alice" two_frames start "bob" no_conns-IsWell refl
