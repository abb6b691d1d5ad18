-- ===== src/Gateway/Session/Acks.antt =====
-- The acknowledgements that the handler of a connection writes, and the messages that it has stored.
use mathlib.Core.List.{append-nil}
use tinytelegram.Base.{
  ◌≤◌, ◌≡◌, ◌⊎◌, arith, String, false, some, List, [], ◌∷◌, ◌++◌, map, length, ◌==◌, ◌||◌,
  Bool-cases, All, inl, inr, refl, ap,
}
use tinytelegram.Base.Exec.{Result, ok, err, Result-cases}
use tinytelegram.Proto.{ChatMessage, PersistedMessage}
use tinytelegram.Gateway.Conns.{unregister_conn}
use tinytelegram.Gateway.Session.Pace.{finish_keeps}
use tinytelegram.Gateway.Session.{
  Ack, Effect, stored, acked, sent_here, sent_peer, Services, World, Turn, IncomingMessage, ack_of,
  deliver_here, deliver_to_peer, deliver, after_lookup, after_ack, after_persist, send, on_incoming,
  then_do, read_loop, get_user_gateway, connect, finish, web_socket_handler,
}

abbrev pub acks_in : List Effect → List Ack
acks_in [] = []
acks_in (stored msg m ∷ rest) = acks_in rest
acks_in (acked a ∷ rest) = a ∷ acks_in rest
acks_in (sent_here receiver_id m ∷ rest) = acks_in rest
acks_in (sent_peer target m ∷ rest) = acks_in rest

abbrev pub stored_in : List Effect → List (ChatMessage × PersistedMessage)
stored_in [] = []
stored_in (stored msg m ∷ rest) = (msg, m) ∷ stored_in rest
stored_in (acked a ∷ rest) = stored_in rest
stored_in (sent_here receiver_id m ∷ rest) = stored_in rest
stored_in (sent_peer target m ∷ rest) = stored_in rest

acks-append : (xs ys : List Effect) → acks_in (xs ++ ys) ≡ acks_in xs ++ acks_in ys
acks-append [] ys = refl
acks-append (stored msg m ∷ xs) ys = acks-append xs ys
acks-append (acked a ∷ xs) ys = rw (acks-append xs ys)
acks-append (sent_here receiver_id m ∷ xs) ys = acks-append xs ys
acks-append (sent_peer target m ∷ xs) ys = acks-append xs ys

stored-append : (xs ys : List Effect) → stored_in (xs ++ ys) ≡ stored_in xs ++ stored_in ys
stored-append [] ys = refl
stored-append (stored msg m ∷ xs) ys = rw (stored-append xs ys)
stored-append (acked a ∷ xs) ys = stored-append xs ys
stored-append (sent_here receiver_id m ∷ xs) ys = stored-append xs ys
stored-append (sent_peer target m ∷ xs) ys = stored-append xs ys

-- The message was read from the frame, and it is from the user.
abbrev pub IsFrom : String → IncomingMessage → ChatMessage → Type 0
IsFrom user_id m msg =
    (msg.sender_id ≡ user_id) × (msg.receiver_id ≡ m.receiver_id) × (msg.content ≡ m.content)

-- Each frame has its stored message, in order.
abbrev pub StoredFor :
    String → List IncomingMessage → List (ChatMessage × PersistedMessage) → Type 0
StoredFor user_id [] [] = Unit
StoredFor user_id [] (p ∷ ps) = ⊥
StoredFor user_id (m ∷ ms) [] = ⊥
StoredFor user_id (m ∷ ms) (p ∷ ps) = IsFrom user_id m p.0 × StoredFor user_id ms ps

-- No acknowledgement, or the one of the message that was stored.
abbrev Answers : String → IncomingMessage → List Effect → Type 0
Answers user_id m effects =
    (acks_in effects ≡ [])
    ⊎ ((msg : ChatMessage) × (p : PersistedMessage) × IsFrom user_id m msg
        × (acks_in effects ≡ ack_of p ∷ [])
        × (stored_in effects ≡ (msg, p) ∷ []))

module _ (S : Services) (self_addr user_id : String) where
  deliver_quiet :
      (target receiver_id : String) (m : PersistedMessage) (w : World S)
      → let effects = (deliver S self_addr user_id target receiver_id m w).effects in
        (acks_in effects ≡ []) × (stored_in effects ≡ [])
  unfolding deliver deliver_here deliver_to_peer
  deliver_quiet target receiver_id m w = elim (Bool-cases (target == self_addr)) [
    | inl here ↦ rw here (refl, refl)
    | inr there ↦ rw there (refl, refl)
  ]

  lookup_quiet :
      (receiver_id : String) (m : PersistedMessage) (answer : Result String × World S)
      → let effects = (after_lookup S self_addr user_id receiver_id m answer).effects in
        (acks_in effects ≡ []) × (stored_in effects ≡ [])
  unfolding after_lookup
  lookup_quiet receiver_id m (err e, w) = (refl, refl)
  lookup_quiet receiver_id m (ok target, w) = elim (Bool-cases (target == "")) [
    | inl unknown ↦ rw unknown (refl, refl)
    | inr known ↦ rw known (deliver_quiet target receiver_id m w)
  ]

  ack_once :
      (receiver_id : String) (m : PersistedMessage) (written : Result (Unit {0}) × World S)
      → let effects = (after_ack S self_addr user_id receiver_id m written).effects in
        ((acks_in effects ≡ []) ⊎ (acks_in effects ≡ ack_of m ∷ [])) × (stored_in effects ≡ [])
  unfolding after_ack
  ack_once receiver_id m (err e, w) = (inl refl, refl)
  ack_once receiver_id m (ok _, w) =
      let (target, outside') = get_user_gateway S receiver_id w.outside in
      let quiet =
        lookup_quiet receiver_id m (target, record { outside = outside'; conns = w.conns }) in
      (inr (ap (λ l. ack_of m ∷ l) quiet.0), quiet.1)

  persist-Answers :
      (incoming : IncomingMessage) (msg : ChatMessage) (answer : Result PersistedMessage × World S)
      → IsFrom user_id incoming msg
      → Answers user_id incoming (after_persist S self_addr user_id msg answer).effects
  unfolding after_persist
  persist-Answers incoming msg (err e, w) from = inl refl
  persist-Answers incoming msg (ok m, w) from =
      let (written, outside') = S.write_json (ack_of m) w.outside in
      let (acks, none_stored) =
        ack_once msg.receiver_id m (written, record { outside = outside'; conns = w.conns }) in
      elim acks [
        | inl none_acked ↦ inl none_acked
        | inr one ↦ inr (msg, m, from, one, ap (λ l. (msg, m) ∷ l) none_stored)
      ]

  incoming-Answers :
      (m : IncomingMessage) (w : World S)
      → Answers user_id m (on_incoming S self_addr user_id (ok m) w).effects
  unfolding on_incoming send
  incoming-Answers m w = elim (Bool-cases ((m.receiver_id == "") || (m.content == ""))) [
    | inl empty ↦ rw empty (inl refl)
    | inr full ↦ rw full (persist-Answers m _ _ (refl, refl, refl))
  ]

  -- All of it, when there are as many acknowledgements as frames.
  abbrev pub Complete : List IncomingMessage → List Effect → Type 0
  Complete ms effects =
      StoredFor user_id ms (stored_in effects)
      × (acks_in effects ≡ map (λ p. ack_of p.1) (stored_in effects))

  abbrev pub Bounded : List IncomingMessage → List Effect → Type 0
  Bounded ms effects =
      (length (acks_in effects) ≤ length ms)
      × (length (acks_in effects) ≡ length ms → Complete ms effects)

  nothing-Bounded : (ms : List IncomingMessage) → Bounded ms []
  nothing-Bounded [] = (omega arith, λ e. (tt, refl))
  nothing-Bounded (m ∷ ms) = (omega arith, λ e. absurd (omega arith))

  append-Bounded :
      (m : IncomingMessage) (ms : List IncomingMessage) (xs ys : List Effect)
      → Answers user_id m xs
      → Bounded ms ys
      → Bounded (m ∷ ms) (xs ++ ys)
  append-Bounded m ms xs ys h k = elim h [
    | inl none_acked ↦
        rw (acks-append xs ys, none_acked) (omega (arith, k.0), λ e. absurd (omega (arith, k.0, e)))
    | inr (msg, p, from, one, one_stored) ↦
        rw (acks-append xs ys, stored-append xs ys, one, one_stored)
          (
            omega (arith, k.0),
            λ e.
                let (stored_for, answered) = k.1 (omega (arith, e)) in
                ((from, stored_for), ap (λ l. ack_of p ∷ l) answered),
          )
  ]

  first-Bounded :
      (m : IncomingMessage) (ms : List IncomingMessage) (xs : List Effect)
      → Answers user_id m xs
      → Bounded (m ∷ ms) xs
  first-Bounded m ms xs h =
      rw (← (append-nil xs)) (append-Bounded m ms xs [] h (nothing-Bounded ms))

  then-Bounded :
      (m : IncomingMessage) (ms : List IncomingMessage) (t : Turn S) (f : World S → Turn S)
      → Answers user_id m t.effects
      → ((w : World S) → Bounded ms (f w).effects)
      → Bounded (m ∷ ms) (then_do S self_addr user_id t f).effects
  then-Bounded m ms t f h k = elim (Result-cases t.outcome) [
    | inl (done, e) ↦ rw e (append-Bounded m ms t.effects (f t.world).effects h (k t.world))
    | inr (failure, e) ↦ rw e (first-Bounded m ms t.effects h)
  ]

  -- The frames are read as the messages that they were written from.
  abbrev pub Readable : (IncomingMessage → String) → List IncomingMessage → Type 0
  Readable marshal ms = All (λ m. S.unmarshal (marshal m) ≡ ok m) ms

  module _ (marshal : IncomingMessage → String) where
    -- The frames of a client, as the gateway reads them.
    pub read-Bounded :
        (ms : List IncomingMessage) (w : World S)
        → Readable marshal ms
        → Bounded ms (read_loop S self_addr user_id (map marshal ms) w).effects
    unfolding read_loop
    read-Bounded [] w readable = (omega arith, λ e. (tt, refl))
    read-Bounded (m ∷ ms) w readable = rw readable.0 (
        then-Bounded m ms (on_incoming S self_addr user_id (ok m) w)
          (λ w'. read_loop S self_addr user_id (map marshal ms) w') (incoming-Answers m w)
          (λ w'. read-Bounded ms w' readable.1))

    -- The whole handler, for a request that can be upgraded.
    pub handler-Bounded :
        (ms : List IncomingMessage) (w : World S)
        → (user_id == "") ≡ false
        → Readable marshal ms
        → Bounded ms (web_socket_handler S self_addr user_id (some (map marshal ms)) w).effects
    unfolding web_socket_handler finish
    handler-Bounded ms w named readable =
        let t = read_loop S self_addr user_id (map marshal ms) (connect S self_addr user_id w) in
        rw (named, finish_keeps S self_addr user_id t (unregister_conn user_id t.world.conns))
          (read-Bounded ms (connect S self_addr user_id w) readable)
