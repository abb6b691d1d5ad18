-- ===== src/Gateway/Session.antt =====
-- gateway/handler/websocket.go: the handler of one connection, with the calls of
-- gateway/store/redis.go and gateway/msgclient that it makes.
pub mod Pace
pub mod Cleanup
pub mod Acks
use tinytelegram.Base.{
  ℕ, String, Bool, ◌||◌, Option, none, some, List, [], ◌∷◌, ◌++◌, ◌==◌, if◌then◌else◌,
}
use tinytelegram.Base.Exec.{Result, ok, err, Exec}
use tinytelegram.Proto.{ChatMessage, PersistedMessage}
use tinytelegram.MessageService.Keys.{presence_key}
use tinytelegram.Gateway.Conns.{Conns, open_conn, unregister_conn, deliver_local}

pub record IncomingMessage : Type 0 where
  pub receiver_id : String
  pub content : String

-- What the handler writes to its connection after a message is stored.
pub record Ack : Type 0 where
  pub sender_pts : ℕ
  pub message_id : String

-- What is outside of the gateway: Redis, the message service, the WebSocket, the decoder of JSON, the
-- clock, and the goroutines that call a peer.
pub record Services : Type 1 where
  pub State : Type 0
  -- With a time to live in seconds.
  pub set_key : String → String → ℕ → Exec State (Unit {0})
  pub del_key : String → Exec State (Unit {0})
  pub get_key : String → Exec State String
  pub persist_message : ChatMessage → Exec State PersistedMessage
  pub write_json : Ack → Exec State (Unit {0})
  pub spawn_peer_delivery : String → PersistedMessage → State → State
  pub unmarshal : String → Result IncomingMessage
  pub unix_milli : State → ℕ

-- What the handler does about a message, in order. A message that is sent on may still not arrive: the
-- handler does not look at the answer.
pub data Effect : Type 0 where
  stored : ChatMessage → PersistedMessage → Effect
  acked : Ack → Effect
  sent_here : String → PersistedMessage → Effect
  sent_peer : String → PersistedMessage → Effect

abbrev pub presence_ttl : ℕ
presence_ttl = 15

abbrev pub choose : String → String → String
choose value fallback = if value == "" then fallback else value

-- GATEWAY_GRPC_ADDR, or GATEWAY_ADDR where that is not set.
unfoldable pub presence_addr : String → String → String
presence_addr gateway_addr gateway_grpc_addr = choose gateway_grpc_addr gateway_addr

unfoldable pub ack_of : PersistedMessage → Ack
ack_of persisted = record { sender_pts = persisted.sender_pts; message_id = persisted.id }

abbrev pub outcome_of : Result Bool → Result (Unit {0})
outcome_of (ok _) = ok tt
outcome_of (err e) = err e

module _ (S : Services) where
  open S use {
    State, set_key, del_key, get_key, persist_message, write_json, spawn_peer_delivery, unmarshal,
    unix_milli,
  }

  pub record World : Type 0 where
    pub outside : State
    pub conns : Conns

  unfoldable pub register_user : String → String → Exec State (Unit {0})
  register_user user_id addr = set_key (presence_key user_id) addr presence_ttl

  unfoldable pub unregister_user : String → Exec State (Unit {0})
  unregister_user user_id = del_key (presence_key user_id)

  unfoldable pub get_user_gateway : String → Exec State String
  get_user_gateway user_id = get_key (presence_key user_id)

  -- The effects of a part of the handler, whether it went on (a panic is an error), and the world.
  pub record Turn : Type 0 where
    pub effects : List Effect
    pub outcome : Result (Unit {0})
    pub world : World

  abbrev pub goes_on : World → Turn
  goes_on w = record { effects = []; outcome = ok tt; world = w }

  abbrev pub prefix : Effect → Turn → Turn
  prefix e t = record { effects = e ∷ t.effects; outcome = t.outcome; world = t.world }

  module _ (self_addr user_id : String) where
    unfoldable pub deliver_here : String → PersistedMessage → World → Turn
    deliver_here receiver_id persisted w =
        let (sent, conns') = deliver_local receiver_id persisted w.conns in
        record {
          effects = sent_here receiver_id persisted ∷ [];
          outcome = outcome_of sent;
          world = record { outside = w.outside; conns = conns' };
        }

    unfoldable pub deliver_to_peer : String → PersistedMessage → World → Turn
    deliver_to_peer target persisted w = record {
      effects = sent_peer target persisted ∷ [];
      outcome = ok tt;
      world = record { outside = spawn_peer_delivery target persisted w.outside; conns = w.conns };
    }

    -- if targetGateway == presenceAddr
    unfoldable pub deliver : String → String → PersistedMessage → World → Turn
    unfolding deliver_here deliver_to_peer
    deliver target receiver_id persisted w =
        if target == self_addr
        then deliver_here receiver_id persisted w
        else deliver_to_peer target persisted w

    -- if err != nil || targetGateway == ""
    unfoldable pub after_lookup : String → PersistedMessage → Result String × World → Turn
    after_lookup receiver_id persisted (err e, w) = goes_on w
    after_lookup receiver_id persisted (ok target, w) =
        if target == "" then goes_on w else deliver target receiver_id persisted w

    unfoldable pub after_ack : String → PersistedMessage → Result (Unit {0}) × World → Turn
    unfolding after_lookup
    after_ack receiver_id persisted (err e, w) = goes_on w
    after_ack receiver_id persisted (ok _, w) =
        let (target, outside') = get_user_gateway receiver_id w.outside in
        prefix (acked (ack_of persisted)) (
          after_lookup receiver_id persisted
            (target, record { outside = outside'; conns = w.conns }))

    unfoldable pub after_persist : ChatMessage → Result PersistedMessage × World → Turn
    unfolding after_ack
    after_persist msg (err e, w) = goes_on w
    after_persist msg (ok persisted, w) =
        let (written, outside') = write_json (ack_of persisted) w.outside in
        prefix (stored msg persisted) (
          after_ack msg.receiver_id persisted
            (written, record { outside = outside'; conns = w.conns }))

    abbrev pub chat_message : IncomingMessage → World → ChatMessage
    chat_message incoming w = record {
      sender_id = user_id;
      receiver_id = incoming.receiver_id;
      content = incoming.content;
      client_timestamp = unix_milli w.outside;
    }

    unfoldable pub send : ChatMessage → World → Turn
    unfolding after_persist
    send msg w =
        let (answer, outside') = persist_message msg w.outside in
        after_persist msg (answer, record { outside = outside'; conns = w.conns })

    unfoldable pub on_incoming : Result IncomingMessage → World → Turn
    unfolding send
    on_incoming (err e) w = goes_on w
    on_incoming (ok incoming) w =
        if (incoming.receiver_id == "") || (incoming.content == "")
        then goes_on w
        else send (chat_message incoming w) w

    abbrev pub then_do : Turn → (World → Turn) → Turn
    then_do t f = elim t.outcome [
      | err e ↦ t
      | ok _ ↦
          let t' = f t.world in
          record { effects = t.effects ++ t'.effects; outcome = t'.outcome; world = t'.world }
    ]

    -- The loop, over the frames that arrive before the connection fails.
    unfoldable pub read_loop : List String → World → Turn
    unfolding on_incoming
    read_loop [] w = goes_on w
    read_loop (raw ∷ frames) w = then_do (on_incoming (unmarshal raw) w) (λ w'. read_loop frames w')

    unfoldable pub connect : World → World
    connect w =
        let (_, outside') = register_user user_id self_addr w.outside in
        record { outside = outside'; conns = open_conn user_id w.conns }

    -- The user is unregistered only where `UnregisterConn` does not panic.
    unfoldable pub after_unregister : Turn → Result (Unit {0}) × Conns → Turn
    after_unregister t (ok _, conns') =
        let (_, outside') = unregister_user user_id t.world.outside in
        record {
          effects = t.effects;
          outcome = t.outcome;
          world = record { outside = outside'; conns = conns' };
        }
    after_unregister t (err e, conns') = record {
      effects = t.effects;
      outcome = err e;
      world = record { outside = t.world.outside; conns = conns' };
    }

    -- The deferred function, which runs after a panic too.
    unfoldable pub finish : Turn → Turn
    unfolding after_unregister
    finish t = after_unregister t (unregister_conn user_id t.world.conns)

    -- `frames` is none where the upgrade of the request fails.
    unfoldable pub web_socket_handler : Option (List String) → World → Turn
    unfolding read_loop
    web_socket_handler none w = goes_on w
    web_socket_handler (some frames) w =
        if user_id == "" then goes_on w else finish (read_loop frames (connect w))
