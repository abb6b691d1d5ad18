-- ===== src/Gateway/Delivery/Tests.antt =====
-- The theorems about deliveries at concrete inputs.
use tinytelegram.Base.{String, ◌≡◌, refl, arith, true, some, [], ◌∷◌}
use tinytelegram.Base.Dict.{get, put}
use tinytelegram.Base.Exec.{Result, ok}
use tinytelegram.Proto.{ChatMessage, PersistedMessage}
use tinytelegram.MessageService.Keys.{pts_key}
use tinytelegram.MessageService.Redis.{allocate_pts_with_wait}
use tinytelegram.MessageService.Schema.{admits, is_fresh}
use tinytelegram.MessageService.Persist.{World, reply, persisted, persist_message}
use tinytelegram.MessageService.Sim.{redis, postgres}
use tinytelegram.Gateway.Conns.{
  Conns, no_conns, set, make_chan, register_conn, try_send, open_conn, deliver_message,
}
use tinytelegram.Gateway.Conns.Step.{no_conns-IsWell, open-IsWell}
use tinytelegram.Gateway.Delivery.{drain, drain_all}
use tinytelegram.Gateway.Delivery.Across.{Serves, IsCached, across_gateways}
use tinytelegram.Peers.{Grpc, Peers}
use tinytelegram.Peers.Cache.{deliver_message as deliver_to_peer}

abbrev hello : ChatMessage
hello = record { sender_id = "alice"; receiver_id = "bob"; content = "hello"; client_timestamp = 1 }

abbrev start : World redis postgres
start = record { conn = record { counts = λ k. 0; replicas = 1 }; db = [] }

abbrev first : PersistedMessage
first = persisted "m1" 10 hello 1 1

-- bob is connected, and a message waits for him.
abbrev with_bob : Conns
with_bob = open_conn "bob" no_conns

abbrev with_first : Conns
with_first = (try_send 0 first with_bob).1

drains_first :
    ((drain 1 0 with_first).0 ≡ first ∷ []) × (((drain 1 0 with_first).1.chans 0).queue ≡ [])
unfolding open_conn make_chan register_conn set try_send
drains_first = drain_all 0 with_first

first_reply : (persist_message redis postgres "m1" 10 hello start).0 ≡ reply first
unfolding persist_message allocate_pts_with_wait admits is_fresh pts_key
first_reply = refl

bob_found : get with_bob.conn_map "bob" ≡ some 0
unfolding open_conn make_chan register_conn get put
bob_found = refl

-- bob's gateway is the only one, and a client is the address that it was made for.
abbrev grpc : Grpc
grpc = record {
  State = Conns;
  Client = String;
  new_client = λ addr s. (ok addr, s);
  call = λ c m s. deliver_message m s;
}

made_for_it : (c : String) → ◌≡◌ {A = Result String} (ok "gw2") (ok c) → c ≡ "gw2"
made_for_it c h = ground arith

abbrev serves : Serves grpc "gw2"
serves = record {
  remote = λ s. s;
  IsFor = λ c. c ≡ "gw2";
  made = λ s c h. made_for_it c h;
  made_keeps = λ s. refl;
  called = λ c m s h. (refl, refl);
}

abbrev no_clients : Peers grpc
no_clients = record { clients = []; outside = with_bob }

none-IsCached : IsCached grpc "gw2" serves no_clients
unfolding get
none-IsCached c h = absurd (ground arith)

across_gateways_example :
    ((deliver_to_peer grpc "gw2" first no_clients).0 ≡ ok true)
    × ((drain 1 0 (deliver_to_peer grpc "gw2" first no_clients).1.outside).0 ≡ first ∷ [])
unfolding open_conn make_chan register_conn set
across_gateways_example =
    across_gateways grpc "gw2" serves redis postgres "m1" 10 hello start first no_clients 0
      (λ s. ("gw2", refl)) none-IsCached first_reply (open-IsWell "bob" no_conns no_conns-IsWell)
      bob_found (omega arith)
