-- ===== src/Gateway/Session/Pace.antt =====
-- The order of what the handler of a connection does about the messages it reads.
use tinytelegram.Base.{
  ◌≡◌, String, false, List, [], ◌∷◌, ◌++◌, ◌==◌, ◌||◌, Bool-cases, Option, none, some, inl, inr,
  refl,
}
use tinytelegram.Base.Exec.{Result, ok, err, Result-cases}
use tinytelegram.Proto.{ChatMessage, PersistedMessage}
use tinytelegram.Gateway.Conns.{Conns}
use tinytelegram.Gateway.Session.{
  Effect, stored, acked, sent_here, sent_peer, Services, World, Turn, IncomingMessage, ack_of,
  deliver_here, deliver_to_peer, deliver, after_lookup, after_ack, after_persist, send, on_incoming,
  then_do, read_loop, chat_message, connect, after_unregister, finish, web_socket_handler,
  get_user_gateway,
}

-- What may come next: a message is stored, then acknowledged, then sent on, and each of the later
-- two may be missing.
pub data Phase : Type 0 where
  idle : Phase
  has_stored : ChatMessage → PersistedMessage → Phase
  has_acked : ChatMessage → PersistedMessage → Phase

unfoldable pub phase_after : Phase → Effect → Phase
phase_after p (stored msg m) = has_stored msg m
phase_after (has_stored msg m) (acked a) = has_acked msg m
phase_after idle (acked a) = idle
phase_after (has_acked msg m) (acked a) = idle
phase_after p (sent_here receiver_id m) = idle
phase_after p (sent_peer target m) = idle

abbrev pub IsAllowed : String → Phase → Effect → Type 0
IsAllowed user_id p (stored msg m) =
    (msg.sender_id ≡ user_id) × (((msg.receiver_id == "") || (msg.content == "")) ≡ false)
IsAllowed user_id (has_stored msg m) (acked a) = a ≡ ack_of m
IsAllowed user_id idle (acked a) = ⊥
IsAllowed user_id (has_acked msg m) (acked a) = ⊥
IsAllowed user_id (has_acked msg m) (sent_here receiver_id m') =
    (receiver_id ≡ msg.receiver_id) × (m' ≡ m)
IsAllowed user_id idle (sent_here receiver_id m') = ⊥
IsAllowed user_id (has_stored msg m) (sent_here receiver_id m') = ⊥
IsAllowed user_id (has_acked msg m) (sent_peer target m') = ((target == "") ≡ false) × (m' ≡ m)
IsAllowed user_id idle (sent_peer target m') = ⊥
IsAllowed user_id (has_stored msg m) (sent_peer target m') = ⊥

-- Every effect is allowed where it stands.
abbrev pub IsPaced : String → Phase → List Effect → Type 0
IsPaced user_id p [] = Unit
IsPaced user_id p (e ∷ rest) = IsAllowed user_id p e × IsPaced user_id (phase_after p e) rest

IsPaced-idle :
    (user_id : String) (p : Phase) (xs : List Effect)
    → IsPaced user_id idle xs
    → IsPaced user_id p xs
unfolding phase_after
IsPaced-idle user_id p [] h = tt
IsPaced-idle user_id p (stored msg m ∷ rest) h = h
IsPaced-idle user_id p (acked a ∷ rest) h = absurd h.0
IsPaced-idle user_id p (sent_here receiver_id m ∷ rest) h = absurd h.0
IsPaced-idle user_id p (sent_peer target m ∷ rest) h = absurd h.0

IsPaced-append :
    (user_id : String) (p : Phase) (xs ys : List Effect)
    → IsPaced user_id p xs
    → IsPaced user_id idle ys
    → IsPaced user_id p (xs ++ ys)
IsPaced-append user_id p [] ys h k = IsPaced-idle user_id p ys k
IsPaced-append user_id p (x ∷ xs) ys h k =
    (h.0, IsPaced-append user_id (phase_after p x) xs ys h.1 k)

module _ (S : Services) (self_addr user_id : String) where
  deliver-IsPaced :
      (target : String) (msg : ChatMessage) (m : PersistedMessage) (w : World S)
      → (target == "") ≡ false
      → IsPaced user_id
          (has_acked msg m)
          (deliver S self_addr user_id target msg.receiver_id m w).effects
  unfolding deliver deliver_here deliver_to_peer phase_after
  deliver-IsPaced target msg m w known = elim (Bool-cases (target == self_addr)) [
    | inl here ↦ rw here ((refl, refl), tt)
    | inr there ↦ rw there ((known, refl), tt)
  ]

  lookup-IsPaced :
      (msg : ChatMessage) (m : PersistedMessage) (answer : Result String × World S)
      → IsPaced user_id
          (has_acked msg m)
          (after_lookup S self_addr user_id msg.receiver_id m answer).effects
  unfolding after_lookup
  lookup-IsPaced msg m (err e, w) = tt
  lookup-IsPaced msg m (ok target, w) = elim (Bool-cases (target == "")) [
    | inl unknown ↦ rw unknown tt
    | inr known ↦ rw known (deliver-IsPaced target msg m w known)
  ]

  ack-IsPaced :
      (msg : ChatMessage) (m : PersistedMessage) (written : Result (Unit {0}) × World S)
      → IsPaced user_id
          (has_stored msg m)
          (after_ack S self_addr user_id msg.receiver_id m written).effects
  unfolding after_ack phase_after
  ack-IsPaced msg m (err e, w) = tt
  ack-IsPaced msg m (ok _, w) = (
    refl,
    lookup-IsPaced msg m (
        (
          (get_user_gateway S msg.receiver_id w.outside).0,
          record { outside = (get_user_gateway S msg.receiver_id w.outside).1; conns = w.conns },
        )),
  )

  persist-IsPaced :
      (msg : ChatMessage) (answer : Result PersistedMessage × World S)
      → msg.sender_id ≡ user_id
      → ((msg.receiver_id == "") || (msg.content == "")) ≡ false
      → IsPaced user_id idle (after_persist S self_addr user_id msg answer).effects
  unfolding after_persist phase_after
  persist-IsPaced msg (err e, w) h k = tt
  persist-IsPaced msg (ok m, w) h k = (
    (h, k),
    ack-IsPaced msg m (
        (
          (S.write_json (ack_of m) w.outside).0,
          record { outside = (S.write_json (ack_of m) w.outside).1; conns = w.conns },
        )),
  )

  incoming-IsPaced :
      (incoming : Result IncomingMessage) (w : World S)
      → IsPaced user_id idle (on_incoming S self_addr user_id incoming w).effects
  unfolding on_incoming send
  incoming-IsPaced (err e) w = tt
  incoming-IsPaced (ok incoming) w =
      let msg = chat_message S self_addr user_id incoming w in
      let answer = S.persist_message msg w.outside in
      elim (Bool-cases ((incoming.receiver_id == "") || (incoming.content == ""))) [
        | inl incomplete ↦ rw incomplete tt
        | inr complete ↦ rw complete (
            persist-IsPaced msg (answer.0, record { outside = answer.1; conns = w.conns }) refl
              complete)
      ]

  then_do-IsPaced :
      (t : Turn S) (f : World S → Turn S)
      → IsPaced user_id idle t.effects
      → ((w : World S) → IsPaced user_id idle (f w).effects)
      → IsPaced user_id idle (then_do S self_addr user_id t f).effects
  then_do-IsPaced t f h k = elim (Result-cases t.outcome) [
    | inl (_, e) ↦ rw e (IsPaced-append user_id idle t.effects (f t.world).effects h (k t.world))
    | inr (_, e) ↦ rw e h
  ]

  loop-IsPaced :
      (frames : List String) (w : World S)
      → IsPaced user_id idle (read_loop S self_addr user_id frames w).effects
  unfolding read_loop
  loop-IsPaced [] w = tt
  loop-IsPaced (raw ∷ frames) w =
      then_do-IsPaced (on_incoming S self_addr user_id (S.unmarshal raw) w)
        (λ w'. read_loop S self_addr user_id frames w') (incoming-IsPaced (S.unmarshal raw) w)
        (λ w'. loop-IsPaced frames w')

  pub finish_keeps :
      (t : Turn S) (r : Result (Unit {0}) × Conns)
      → (after_unregister S self_addr user_id t r).effects ≡ t.effects
  unfolding after_unregister
  finish_keeps t (ok _, conns) = refl
  finish_keeps t (err e, conns) = refl

  -- Whatever the frames are and the services answer, every message that a connection of a user stores
  -- is from that user and has a receiver and a text, it is acknowledged only after it is stored, with
  -- its id and its sender's number, and it is sent on only after that, as it was stored, here to its
  -- receiver or to a gateway with an address, and only once.
  pub session-IsPaced :
      (frames : Option (List String)) (w : World S)
      → IsPaced user_id idle (web_socket_handler S self_addr user_id frames w).effects
  unfolding web_socket_handler finish
  session-IsPaced none w = tt
  session-IsPaced (some frames) w = elim (Bool-cases (user_id == "")) [
    | inl anonymous ↦ rw anonymous tt
    | inr named ↦
        rw
          (
            named,
            finish_keeps (read_loop S self_addr user_id frames (connect S self_addr user_id w)),
          )
          (loop-IsPaced frames (connect S self_addr user_id w))
  ]
