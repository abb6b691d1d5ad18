-- ===== src/Gateway/Delivery.antt =====
-- A message on its way from the message service to the connection of its receiver: the reply of
-- `PersistMessage`, `DeliverMessage` at the receiver's gateway, and the goroutine that writes to the
-- connection (gateway/handler/websocket.go).
pub mod Across
mod Tests
use tinytelegram.Base.{
  ℕ, zero, suc, ◌+◌, ◌≤◌, ◌<◌, ◌≡◌, refl, ap, sym, ◌∙◌, arith, String, true, false, Option, none,
  some, List, [], ◌∷◌, ◌++◌, length, length-append, inl, inr, ltb, if◌then◌else◌,
}
use tinytelegram.Base.Dict.{get}
use tinytelegram.Base.Exec.{Result, ok, err, Result-cases}
use tinytelegram.Proto.{ChatMessage, PersistedMessage, DeliveryAck}
use tinytelegram.MessageService.Redis.{Redis, allocate_pts_with_wait}
use tinytelegram.MessageService.Postgres.{Postgres}
use tinytelegram.MessageService.Persist.{
  Reply, reply, World, after_allocate, persist_message, pts_wait_timeout_ms,
}
use tinytelegram.MessageService.Persist.Storage.{store-stored}
use tinytelegram.Gateway.Conns.{
  Conns, chan_capacity, set, look_up, try_send, send_found, deliver_local, deliver_message,
  take_first, receive,
}
use tinytelegram.Gateway.Conns.Step.{IsWell}

abbrev written : Option PersistedMessage → List PersistedMessage
written none = []
written (some m) = m ∷ []

-- `n` turns of the loop that writes the messages of a channel, with writes that succeed.
unfoldable pub drain : ℕ → ℕ → Conns → List PersistedMessage × Conns
drain zero i s = ([], s)
drain (suc n) i s =
    let (o, s') = receive i s in let (ms, s'') = drain n i s' in (written o ++ ms, s'')

after_first : ℕ → PersistedMessage → List PersistedMessage → Conns → Conns
after_first i m q s = (take_first i (m ∷ q) s).1

receive-take_first :
    (i : ℕ) (m : PersistedMessage) (q : List PersistedMessage) (s : Conns)
    → (s.chans i).queue ≡ m ∷ q
    → receive i s ≡ (some m, after_first i m q s)
unfolding receive take_first after_first
receive-take_first i m q s e = rw e refl

after_first-queue :
    (i : ℕ) (m : PersistedMessage) (q : List PersistedMessage) (s : Conns)
    → ((after_first i m q s).chans i).queue ≡ q
unfolding take_first set after_first
after_first-queue i m q s = ground arith

drain_queue :
    (n i : ℕ) (q : List PersistedMessage) (s : Conns)
    → n ≡ length q
    → (s.chans i).queue ≡ q
    → ((drain n i s).0 ≡ q) × (((drain n i s).1.chans i).queue ≡ [])
unfolding drain
drain_queue zero i [] s len e = (refl, e)
drain_queue zero i (m ∷ q) s len e = absurd (omega (arith, len))
drain_queue (suc n) i [] s len e = absurd (omega (arith, len))
drain_queue (suc n) i (m ∷ q) s len e =
    let s' = after_first i m q s in
    let (rest, empty) = drain_queue n i q s' (omega (arith, len)) (after_first-queue i m q s) in
    rw (receive-take_first i m q s e) (ap (λ l. m ∷ l) rest, empty)

-- The goroutine of a connection writes every message of its queue, in order, in as many turns as there
-- are messages.
pub drain_all :
    (i : ℕ) (s : Conns)
    → let n = length (s.chans i).queue in
      ((drain n i s).0 ≡ (s.chans i).queue) × (((drain n i s).1.chans i).queue ≡ [])
drain_all i s = drain_queue (length (s.chans i).queue) i (s.chans i).queue s refl refl

deliver-queue :
    (m : PersistedMessage) (msg : ChatMessage) (s : Conns) (i : ℕ)
    → m.message ≡ some msg
    → get s.conn_map msg.receiver_id ≡ some i
    → (s.chans i).is_closed ≡ false
    → length (s.chans i).queue < chan_capacity
    → ((deliver_message m s).0 ≡ ok (record { delivered = true }))
      × (((deliver_message m s).1.chans i).queue ≡ (s.chans i).queue ++ (m ∷ []))
unfolding deliver_message deliver_local look_up send_found try_send set
deliver-queue m msg s i has_message found is_open room = rw has_message (rw found (ground arith))

module _ (R : Redis) (P : Postgres) (msg_id : String) (now : ℕ) (msg : ChatMessage) where
  reply-message :
      (w : World R P) (m : PersistedMessage)
      → (persist_message R P msg_id now msg w).0 ≡ reply m
      → m.message ≡ some msg
  unfolding persist_message
  reply-message w m h =
      elim (Result-cases
        (allocate_pts_with_wait R msg.receiver_id msg.sender_id pts_wait_timeout_ms w.conn).0) [
          | inl ((p, q), e) ↦
              ap (λ m. m.message) (store-stored R P msg_id now msg p q w.db m (rw e at h)).1
          | inr (t, e) ↦ absurd (ground arith)
        ]

  -- When the message service has acknowledged a message, and its receiver is connected to a gateway
  -- with room in the queue, `DeliverMessage` there answers that it is delivered, and the connection
  -- writes it after the messages that were in the queue.
  pub end_to_end :
      (w : World R P) (m : PersistedMessage) (s : Conns) (i : ℕ)
      → (persist_message R P msg_id now msg w).0 ≡ reply m
      → IsWell s
      → get s.conn_map msg.receiver_id ≡ some i
      → length (s.chans i).queue < chan_capacity
      → let (answer, s') = deliver_message m s in
        (answer ≡ ok (record { delivered = true }))
        × ((drain (suc (length (s.chans i).queue)) i s').0 ≡ (s.chans i).queue ++ (m ∷ []))
  end_to_end w m s i stored well found room =
      let q = (s.chans i).queue in
      let is_open = well.is_open msg.receiver_id i found in
      let (answer, queued) =
        deliver-queue m msg s i (reply-message w m stored) found is_open room in
      let len : suc (length q) ≡ length (q ++ (m ∷ [])) = omega (arith, length-append q (m ∷ [])) in
      (
        answer,
        (drain_queue (suc (length q)) i (q ++ (m ∷ [])) (deliver_message m s).1 len queued).0,
      )
