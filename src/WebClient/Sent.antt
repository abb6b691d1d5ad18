-- ===== src/WebClient/Sent.antt =====
-- Messages that the client sends over one connection, and the acknowledgements that come for them.
pub mod Answered
mod Tests
use mathlib.Core.List.{append-nil, append_assoc}
use tinytelegram.Base.{
  ℕ, ◌≡◌, refl, arith, String, Bool, true, false, Option, none, some, List, [], ◌∷◌, ◌++◌, map,
  ◌==◌, Bool-cases, Option-cases, inl, inr, eq_iff, eq_refl, ap, ◌∙◌, sym, All, All-map,
}
use tinytelegram.Base.Dict.{Dict, get, put, delete, get-put, get-delete}
use tinytelegram.Proto.{ChatMessage, PersistedMessage}
use tinytelegram.Gateway.Session.{Ack, ack_of, IncomingMessage}
use tinytelegram.Gateway.Session.Acks.{IsFrom, StoredFor}
use tinytelegram.WebClient.{
  Client, Shown, update_pts, reconcile, shift_pending, handle_ack, send_message,
}
use tinytelegram.WebClient.Acks.{update_keeps, ack_shows, acknowledged, unacknowledged}
use tinytelegram.WebClient.Reload.{update-user_id}
use tinytelegram.WebClient.Runs.{Event, acknowledges, sends, step, run}

-- A message to send, with the temporary id that it gets.
pub record Outgoing : Type 0 where
  pub temp_id : String
  pub incoming : IncomingMessage

abbrev pub send_event : Outgoing → Event
send_event o = sends o.temp_id o.incoming.receiver_id o.incoming.content

-- No two are the same.
abbrev pub Distinct : List String → Type 0
Distinct [] = Unit
Distinct (x ∷ xs) = All (λ y. (x == y) ≡ false) xs × Distinct xs

abbrev pub temp_ids : List Outgoing → List String
temp_ids = map (λ o. o.temp_id)

-- Shown as it is before its acknowledgement.
abbrev pub Waits : Client → Outgoing → Type 0
Waits c o =
    get c.messages o.temp_id
    ≡ some (unacknowledged c.user_id o.temp_id o.incoming.receiver_id o.incoming.content)

-- A message as it was stored.
abbrev pub shown_as : ChatMessage → PersistedMessage → Shown
shown_as msg m = record {
  id = m.id;
  sender_id = msg.sender_id;
  receiver_id = msg.receiver_id;
  content = msg.content;
  pts = m.sender_pts;
  pending = false;
}

abbrev pub ShownStored : Client → ChatMessage × PersistedMessage → Type 0
ShownStored c (msg, m) = get c.messages m.id ≡ some (shown_as msg m)

send_keeps :
    (o : Outgoing) (k : String) (c : Client)
    → (k == o.temp_id) ≡ false
    → get (step (send_event o) c).messages k ≡ get c.messages k
unfolding step send_message
send_keeps o k c other = elim (Bool-cases c.is_open) [
  | inl e ↦ rw e (get-put c.messages o.temp_id _ k ∙ rw other refl)
  | inr e ↦ rw e refl
]

sends_keep :
    (os : List Outgoing) (k : String) (c : Client)
    → All (λ y. (k == y) ≡ false) (temp_ids os)
    → get (run (map send_event os) c).messages k ≡ get c.messages k
unfolding run
sends_keep [] k c other = refl
sends_keep (o ∷ os) k c other =
    sends_keep os k (step (send_event o) c) other.1 ∙ send_keeps o k c other.0

send_lem :
    (o : Outgoing) (c : Client)
    → c.is_open ≡ true
    → let c' = step (send_event o) c in
      (c'.is_open ≡ true)
      × (c'.user_id ≡ c.user_id)
      × (c'.pending_acks ≡ c.pending_acks ++ (o.temp_id ∷ []))
      × Waits c' o
unfolding step send_message
send_lem o c is_open =
    rw is_open
      (refl, refl, refl, get-put c.messages o.temp_id _ o.temp_id ∙ rw (eq_refl o.temp_id) refl)

-- After the messages are sent, all wait, in their order.
pub sends_lem :
    (os : List Outgoing) (c : Client)
    → c.is_open ≡ true
    → Distinct (temp_ids os)
    → let c' = run (map send_event os) c in
      (c'.user_id ≡ c.user_id)
      × (c'.pending_acks ≡ c.pending_acks ++ temp_ids os)
      × All (Waits c') os
unfolding run
sends_lem [] c is_open distinct = (refl, sym (append-nil c.pending_acks), tt)
sends_lem (o ∷ os) c is_open distinct =
    let c₁ = step (send_event o) c in
    let (open₁, user₁, pending₁, waits₁) = send_lem o c is_open in
    let (user, pending, waiting) = sends_lem os c₁ open₁ distinct.1 in
    (
      user ∙ user₁,
      pending ∙ rw pending₁ (append_assoc c.pending_acks (o.temp_id ∷ []) (temp_ids os)),
      (
        sends_keep os o.temp_id c₁ distinct.0
            ∙ waits₁
            ∙ ap (λ u. some (unacknowledged u o.temp_id o.incoming.receiver_id o.incoming.content))
                (sym user),
        waiting,
      ),
    )

shift_lem :
    (t : String) (rest : List String) (ack : Ack) (msg : Shown) (c : Client)
    → get c.messages t ≡ some msg
    → let c' = shift_pending (t ∷ rest) ack c in
      (c'.user_id ≡ c.user_id)
      × (c'.pending_acks ≡ rest)
      × (get c'.messages ack.message_id ≡ some (acknowledged ack msg))
      × ((k : String)
          → (k == t) ≡ false
          → (k == ack.message_id) ≡ false
          → get c'.messages k ≡ get c.messages k)
unfolding shift_pending reconcile
shift_lem t rest ack msg c found = rw found (
  refl,
  refl,
  get-put (delete c.messages t) ack.message_id (acknowledged ack msg) ack.message_id
      ∙ rw (eq_refl ack.message_id) refl,
  λ k not_t other.
      get-put (delete c.messages t) ack.message_id (acknowledged ack msg) k
      ∙ rw other (get-delete c.messages t k ∙ rw not_t refl),
)

-- One acknowledgement, for the oldest message.
pub ack_lem :
    (t : String) (rest : List String) (ack : Ack) (msg : Shown) (c : Client)
    → c.pending_acks ≡ t ∷ rest
    → get c.messages t ≡ some msg
    → let c' = handle_ack ack c in
      (c'.user_id ≡ c.user_id)
      × (c'.pending_acks ≡ rest)
      × (get c'.messages ack.message_id ≡ some (acknowledged ack msg))
      × ((k : String)
          → (k == t) ≡ false
          → (k == ack.message_id) ≡ false
          → get c'.messages k ≡ get c.messages k)
unfolding handle_ack
ack_lem t rest ack msg c pending found =
    let c₁ = update_pts ack.sender_pts c in
    let (messages, pending₁) = update_keeps ack.sender_pts c in
    let (user, later, shown, kept) =
      shift_lem t rest ack msg c₁ (ap (λ d. get d t) messages ∙ found) in
    rw (pending₁ ∙ pending) (
      user ∙ update-user_id ack.sender_pts c,
      later,
      shown,
      λ k not_t other. kept k not_t other ∙ ap (λ d. get d k) messages,
    )
