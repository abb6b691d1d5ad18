-- ===== src/Gateway/Delivery/Across.antt =====
-- A message on its way to a receiver at another gateway: the peer client (gateway/peer/client.go) calls
-- `DeliverMessage` there.
use tinytelegram.Base.{
  ℕ, suc, ◌<◌, ◌≡◌, refl, ap, ◌∙◌, String, true, some, [], ◌∷◌, ◌++◌, length, inl, inr,
  Option-cases,
}
use tinytelegram.Base.Dict.{get}
use tinytelegram.Base.Exec.{ok}
use tinytelegram.Proto.{ChatMessage, PersistedMessage}
use tinytelegram.MessageService.Redis.{Redis}
use tinytelegram.MessageService.Postgres.{Postgres}
use tinytelegram.MessageService.Persist.{World, reply, persist_message}
use tinytelegram.Gateway.Conns.{Conns, chan_capacity, deliver_message}
use tinytelegram.Gateway.Conns.Step.{IsWell}
use tinytelegram.Gateway.Delivery.{drain, end_to_end}
use tinytelegram.Peers.{Grpc, Dials, Peers, dial, dial-ok, dial-outside, ask, delivered_of}
use tinytelegram.Peers.Cache.{connect_found, get_or_connect, deliver_message as deliver_to_peer}

-- A gateway serves the address: a call of a client for it arrives there and is answered by its
-- `DeliverMessage`, and to make a client does nothing to its connections.
pub record Serves (G : Grpc) (addr : String) : Type 1 where
  pub remote : G.State → Conns
  pub IsFor : G.Client → Type 0
  pub made : (s : G.State) (c : G.Client) → (G.new_client addr s).0 ≡ ok c → IsFor c
  pub made_keeps : (s : G.State) → remote (G.new_client addr s).1 ≡ remote s
  pub called :
      (c : G.Client) (m : PersistedMessage) (s : G.State)
      → IsFor c
      → ((G.call c m s).0 ≡ (deliver_message m (remote s)).0)
        × (remote (G.call c m s).1 ≡ (deliver_message m (remote s)).1)

module _ (G : Grpc) (addr : String) (V : Serves G addr) where
  -- The clients that are kept for the address were made for it.
  abbrev pub IsCached : Peers G → Type 0
  IsCached p = (c : G.Client) → get p.clients addr ≡ some c → V.IsFor c

  ask-called :
      (c : G.Client) (m : PersistedMessage) (p : Peers G)
      → V.IsFor c
      → let (answer, conns) = deliver_message m (V.remote p.outside) in
        ((ask G c m p).0 ≡ delivered_of G answer) × (V.remote (ask G c m p).1.outside ≡ conns)
  unfolding ask
  ask-called c m p is_for =
      let (answer, conns) = V.called c m p.outside is_for in (ap (delivered_of G) answer, conns)

  connected :
      (p : Peers G)
      → Dials G addr
      → IsCached p
      → (c : G.Client) × V.IsFor c
        × ((get_or_connect G addr p).0 ≡ ok c)
        × (V.remote (get_or_connect G addr p).1.outside ≡ V.remote p.outside)
  unfolding get_or_connect connect_found dial
  connected p dials cached = elim (Option-cases (get p.clients addr)) [
    | inr (c, kept) ↦ rw kept (c, cached c kept, refl, refl)
    | inl absent ↦
        let (c, new) = dials p.outside in
        rw absent (
          c,
          V.made p.outside c new,
          dial-ok G addr c p new,
          ap (λ s. V.remote s) (dial-outside G addr p) ∙ V.made_keeps p.outside,
        )
  ]

  -- After a message is acknowledged by the message service, and when a gateway serves the address and has
  -- a connection of the receiver with room in its queue, peer.DeliverMessage to the address answers
  -- that it is delivered, and the connection writes it after the messages that were in the queue.
  pub across_gateways :
      (R : Redis) (P : Postgres) (msg_id : String) (now : ℕ) (msg : ChatMessage) (w : World R P)
      (m : PersistedMessage) (p : Peers G) (i : ℕ)
      → Dials G addr
      → IsCached p
      → (persist_message R P msg_id now msg w).0 ≡ reply m
      → IsWell (V.remote p.outside)
      → get (V.remote p.outside).conn_map msg.receiver_id ≡ some i
      → let queue = ((V.remote p.outside).chans i).queue in
        length queue < chan_capacity
        → let (answer, q) = deliver_to_peer G addr m p in
          (answer ≡ ok true)
          × ((drain (suc (length queue)) i (V.remote q.outside)).0 ≡ queue ++ (m ∷ []))
  unfolding deliver_to_peer
  across_gateways R P msg_id now msg w m p i dials cached stored well found room =
      let (c, is_for, is_ok, same) = connected p dials cached in
      let q = (get_or_connect G addr p).1 in
      let (answer, conns) = ask-called c m q is_for in
      let (delivered, written) =
        end_to_end R P msg_id now msg w m (V.remote p.outside) i stored well found room in
      rw is_ok (
        answer
            ∙ ap (λ s. delivered_of G (deliver_message m s).0) same
            ∙ ap (delivered_of G) delivered,
        ap (λ s. (drain (suc (length ((V.remote p.outside).chans i).queue)) i s).0)
              (conns ∙ ap (λ s. (deliver_message m s).1) same)
            ∙ written,
      )
