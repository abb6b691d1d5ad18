-- ===== src/Gateway/Session/Cleanup.antt =====
-- What the handler of a connection leaves behind in the map of connections.
use tinytelegram.Base.{
  ℕ, ◌≡◌, false, String, Bool-cases, none, some, List, [], ◌∷◌, ◌==◌, ◌||◌, inl, inr, refl, ap,
  arith, if◌then◌else◌,
}
use tinytelegram.Base.Dict.{Dict, get, get-put}
use tinytelegram.Base.Exec.{Result, ok, err}
use tinytelegram.Proto.{ChatMessage, PersistedMessage}
use tinytelegram.Gateway.Conns.{Conns, unregister_conn, open_conn, register_conn, make_chan}
use tinytelegram.Gateway.Conns.Step.{
  IsWell, open-IsWell, end-IsWell, end-ok, end_forgets, deliver-ok, deliver-IsWell,
}
use tinytelegram.Gateway.Session.{
  goes_on, ack_of, outcome_of, get_user_gateway, Services, World, Turn, IncomingMessage,
  deliver_here, deliver_to_peer, deliver, after_lookup, after_ack, after_persist, send, on_incoming,
  then_do, read_loop, chat_message, connect, after_unregister, finish, web_socket_handler,
}

module _ (S : Services) (self_addr user_id : String) where
  -- It went on, and the connections are in order, with the given map.
  abbrev IsCalm : Dict ℕ → Turn S → Type 0
  IsCalm d t = (t.outcome ≡ ok tt) × IsWell t.world.conns × (t.world.conns.conn_map ≡ d)

  goes_on-IsCalm : (w : World S) → IsWell w.conns → IsCalm w.conns.conn_map (goes_on S w)
  goes_on-IsCalm w h = (refl, h, refl)

  here-IsCalm :
      (receiver_id : String) (m : PersistedMessage) (w : World S)
      → IsWell w.conns
      → IsCalm w.conns.conn_map (deliver_here S self_addr user_id receiver_id m w)
  unfolding deliver_here
  here-IsCalm receiver_id m w h = (
    ap outcome_of (deliver-ok w.conns receiver_id m h),
    (deliver-IsWell w.conns receiver_id m h).0,
    (deliver-IsWell w.conns receiver_id m h).1,
  )

  deliver-IsCalm :
      (target receiver_id : String) (m : PersistedMessage) (w : World S)
      → IsWell w.conns
      → IsCalm w.conns.conn_map (deliver S self_addr user_id target receiver_id m w)
  unfolding deliver deliver_to_peer
  deliver-IsCalm target receiver_id m w h = elim (Bool-cases (target == self_addr)) [
    | inl here ↦ rw here (here-IsCalm receiver_id m w h)
    | inr there ↦ rw there (refl, h, refl)
  ]

  lookup-IsCalm :
      (receiver_id : String) (m : PersistedMessage) (answer : Result String) (w : World S)
      → IsWell w.conns
      → IsCalm w.conns.conn_map (after_lookup S self_addr user_id receiver_id m (answer, w))
  unfolding after_lookup
  lookup-IsCalm receiver_id m (err e) w h = goes_on-IsCalm w h
  lookup-IsCalm receiver_id m (ok target) w h = elim (Bool-cases (target == "")) [
    | inl unknown ↦ rw unknown (goes_on-IsCalm w h)
    | inr known ↦ rw known (deliver-IsCalm target receiver_id m w h)
  ]

  ack-IsCalm :
      (receiver_id : String) (m : PersistedMessage) (written : Result (Unit {0})) (w : World S)
      → IsWell w.conns
      → IsCalm w.conns.conn_map (after_ack S self_addr user_id receiver_id m (written, w))
  unfolding after_ack
  ack-IsCalm receiver_id m (err e) w h = goes_on-IsCalm w h
  ack-IsCalm receiver_id m (ok _) w h =
      let looked_up = get_user_gateway S receiver_id w.outside in
      lookup-IsCalm receiver_id m looked_up.0 (record { outside = looked_up.1; conns = w.conns }) h

  persist-IsCalm :
      (msg : ChatMessage) (answer : Result PersistedMessage) (w : World S)
      → IsWell w.conns
      → IsCalm w.conns.conn_map (after_persist S self_addr user_id msg (answer, w))
  unfolding after_persist
  persist-IsCalm msg (err e) w h = goes_on-IsCalm w h
  persist-IsCalm msg (ok m) w h =
      let written = S.write_json (ack_of m) w.outside in
      ack-IsCalm msg.receiver_id m written.0 (record { outside = written.1; conns = w.conns }) h

  incoming-IsCalm :
      (incoming : Result IncomingMessage) (w : World S)
      → IsWell w.conns
      → IsCalm w.conns.conn_map (on_incoming S self_addr user_id incoming w)
  unfolding on_incoming send
  incoming-IsCalm (err e) w h = goes_on-IsCalm w h
  incoming-IsCalm (ok incoming) w h =
      let msg = chat_message S self_addr user_id incoming w in
      let answer = S.persist_message msg w.outside in
      elim (Bool-cases ((incoming.receiver_id == "") || (incoming.content == ""))) [
        | inl incomplete ↦ rw incomplete (goes_on-IsCalm w h)
        | inr complete ↦
            rw complete
              (persist-IsCalm msg answer.0 (record { outside = answer.1; conns = w.conns }) h)
      ]

  then_do-IsCalm :
      (d : Dict ℕ) (t : Turn S) (f : World S → Turn S)
      → IsCalm d t
      → ((w : World S) → IsWell w.conns → IsCalm w.conns.conn_map (f w))
      → IsCalm d (then_do S self_addr user_id t f)
  then_do-IsCalm d t f (went_on, well, same) k = rw (went_on, ← same) (k t.world well)

  loop-IsCalm :
      (frames : List String) (w : World S)
      → IsWell w.conns
      → IsCalm w.conns.conn_map (read_loop S self_addr user_id frames w)
  unfolding read_loop
  loop-IsCalm [] w h = goes_on-IsCalm w h
  loop-IsCalm (raw ∷ frames) w h =
      then_do-IsCalm w.conns.conn_map (on_incoming S self_addr user_id (S.unmarshal raw) w)
        (λ w'. read_loop S self_addr user_id frames w') (incoming-IsCalm (S.unmarshal raw) w h)
        (λ w' h'. loop-IsCalm frames w' h')

  finish-clean :
      (t : Turn S) (d : Dict ℕ) (other : String)
      → IsCalm d t
      → let t' = finish S self_addr user_id t in
        (t'.outcome ≡ ok tt)
        × IsWell t'.world.conns
        × (get t'.world.conns.conn_map other ≡ (if other == user_id then none else get d other))
  unfolding finish after_unregister
  finish-clean t d other (went_on, well, same) =
      let ended = unregister_conn user_id t.world.conns in
      let no_panic =
        ap {B = Result (Unit {0}) × Conns} (λ r. (r, ended.1))
          (end-ok t.world.conns user_id well) in
      rw no_panic (
        went_on,
        end-IsWell user_id t.world.conns ended.1 no_panic well,
        rw (end_forgets t.world.conns user_id other well, same) refl,
      )

  -- A handler that no other goroutine interrupts, for a user with a name and a request that can be
  -- upgraded, whatever the frames are and the services answer, ends with no panic, leaves its user in
  -- the map no more, and leaves the other users as they were.
  pub handler_clean :
      (frames : List String) (w : World S) (other : String)
      → IsWell w.conns
      → (user_id == "") ≡ false
      → let t = web_socket_handler S self_addr user_id (some frames) w in
        (t.outcome ≡ ok tt)
        × IsWell t.world.conns
        × (get t.world.conns.conn_map other
            ≡ (if other == user_id then none else get w.conns.conn_map other))
  unfolding web_socket_handler connect open_conn register_conn make_chan
  handler_clean frames w other h named =
      let w' = connect S self_addr user_id w in
      let calm = loop-IsCalm frames w' (open-IsWell user_id w.conns h) in
      let clean =
        finish-clean (read_loop S self_addr user_id frames w') w'.conns.conn_map other calm in
      rw named (
        clean.0,
        clean.1,
        ground (arith, clean.2, get-put w.conns.conn_map user_id w.conns.next other),
      )
