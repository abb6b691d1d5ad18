-- ===== src/Gateway/Presence/Tests.antt =====
-- The theorems about presence keys at concrete inputs.
use tinytelegram.Base.{
  ℕ, ◌≡◌, ◌⊎◌, inl, refl, arith, String, true, Option, none, some, [], ◌∷◌, ◌==◌, if◌then◌else◌,
}
use tinytelegram.Base.Exec.{Result, ok, err, Exec}
use tinytelegram.Proto.{ChatMessage, PersistedMessage}
use tinytelegram.MessageService.Keys.{presence_key}
use tinytelegram.Gateway.Conns.{no_conns, deliver_local}
use tinytelegram.Gateway.Conns.Step.{no_conns-IsWell}
use tinytelegram.Gateway.Session.{
  stored, acked, sent_peer, Services, World, Turn, ack_of, register_user, unregister_user,
  get_user_gateway, send, connect,
}
use tinytelegram.Gateway.Presence.{
  Presence, tick, done, heartbeat, finish_at, registered_reached, reconnected_unreached,
}

-- Redis is a function from keys to texts.
abbrev Keys : Type 0
Keys = String → Option String

abbrev found_at : Option String → Result String
found_at none = err "redis: nil"
found_at (some v) = ok v

abbrev m1 : ChatMessage → PersistedMessage
m1 msg = record {
  id = "m1";
  message = some msg;
  receiver_pts = 1;
  sender_pts = 1;
  server_timestamp = 0;
}

abbrev set_text : String → String → ℕ → Exec Keys (Unit {0})
set_text key v ttl s = (ok tt, λ j. if j == key then some v else s j)

abbrev services : Services
services = record {
  State = Keys;
  set_key = set_text;
  del_key = λ key s. (ok tt, λ j. if j == key then none else s j);
  get_key = λ key s. (found_at (s key), s);
  persist_message = λ msg s. (ok (m1 msg), s);
  write_json = λ ack s. (ok tt, s);
  spawn_peer_delivery = λ target m s. s;
  unmarshal = λ raw. err raw;
  unix_milli = λ s. 0;
}

found-value : (o : Option String) (v : String) → found_at o ≡ ok v → o ≡ some v
found-value none v h = absurd (ground arith)
found-value (some x) v h = ground arith

set_shaped :
    (key v : String) (ttl : ℕ) (s : Keys) (j : String)
    → ((set_text key v ttl s).1 j ≡ (if j == key then some v else s j))
      ⊎ ((set_text key v ttl s).1 j ≡ s j)
set_shaped key v ttl s j = inl refl

abbrev presence : Presence services
presence = record {
  value = λ s j. s j;
  set_ok = λ key v ttl s pos h j. refl;
  set_shape = set_shaped;
  del_ok = λ key s h j. refl;
  get_ok = λ key v s h. found-value (s key) v h;
  persist_keeps = λ msg s j. refl;
  write_keeps = λ m s j. refl;
}

abbrev hello : ChatMessage
hello = record { sender_id = "alice"; receiver_id = "bob"; content = "hello"; client_timestamp = 0 }

abbrev nobody : Keys
nobody j = none

-- bob has registered.
abbrev bob_there : World services
bob_there = record { outside = (register_user services "bob" "gw2" nobody).1; conns = no_conns }

registered_reached_example :
    (send services "gw1" "alice" hello bob_there).effects
    ≡ stored hello (m1 hello) ∷ acked (ack_of (m1 hello)) ∷ sent_peer "gw2" (m1 hello) ∷ []
unfolding heartbeat register_user get_user_gateway presence_key
registered_reached_example =
    registered_reached services presence "gw1" "alice" hello (m1 hello) bob_there "gw2" "gw2"
      (done ∷ tick ∷ []) nobody bob_there.outside bob_there.outside refl refl refl refl refl refl

-- bob has connected to a second gateway before the first one was finished.
abbrev old_turn : Turn services
old_turn = record {
  effects = [];
  outcome = ok tt;
  world = record { outside = nobody; conns = no_conns };
}

abbrev empty : World services
empty = record { outside = nobody; conns = no_conns }

abbrev finished : Turn services
finished = finish_at services (connect services "gw2" "bob" empty).outside "gw1" "bob" old_turn

abbrev after_both : World services
after_both = record { outside = finished.world.outside; conns = no_conns }

reconnected_unreached_example :
    ((send services "gw1" "alice" hello after_both).effects
      ≡ stored hello (m1 hello) ∷ acked (ack_of (m1 hello)) ∷ [])
    × ((deliver_local "bob" (m1 hello) (connect services "gw2" "bob" empty).conns).0 ≡ ok true)
unfolding unregister_user
reconnected_unreached_example =
    reconnected_unreached services presence "gw1" "alice" hello (m1 hello) after_both "gw2" "gw1"
      empty old_turn after_both.outside after_both.outside no_conns-IsWell refl refl refl refl
