-- ===== src/Gateway/Presence.antt =====
-- gateway/store/redis.go: the presence keys, as the handlers of the gateways use them
-- (gateway/handler/websocket.go), and the goroutine that sets a key again.
mod Tests
use tinytelegram.Base.{
  ℕ, ◌<◌, ◌≡◌, ◌≢◌, refl, ap, sym, ◌∙◌, arith, String, false, true, Option, none, some, List, [],
  ◌∷◌, ◌==◌, eq_refl, inl, inr, ◌⊎◌, Bool-cases, if◌then◌else◌,
}
use tinytelegram.Base.Exec.{Result, ok, err, Result-cases}
use tinytelegram.Proto.{ChatMessage, PersistedMessage}
use tinytelegram.MessageService.Keys.{presence_key}
use tinytelegram.Gateway.Conns.{
  Conns, unregister_conn, deliver_local, look_up, send_found, try_send, open_conn, make_chan,
  register_conn, set,
}
use tinytelegram.Base.Dict.{get-put}
use tinytelegram.Gateway.Conns.Step.{IsWell, end-ok}
use tinytelegram.Gateway.Session.{
  Effect, stored, acked, sent_here, sent_peer, Services, World, Turn, presence_ttl, ack_of,
  register_user, unregister_user, get_user_gateway, deliver_here, deliver_to_peer, deliver,
  after_lookup, after_ack, after_persist, send, connect, after_unregister, finish,
}

-- What SET, DEL and GET of Redis do to the texts under keys, a SET that fails included, and that
-- storing a message and writing to a connection do nothing to them.
pub record Presence (S : Services) : Type 0 where
  pub value : S.State → String → Option String
  pub set_ok :
      (key v : String) (ttl : ℕ) (s : S.State)
      → 0 < ttl
      → (S.set_key key v ttl s).0 ≡ ok tt
      → (j : String) → value (S.set_key key v ttl s).1 j ≡ (if j == key then some v else value s j)
  pub set_shape :
      (key v : String) (ttl : ℕ) (s : S.State) (j : String)
      → (value (S.set_key key v ttl s).1 j ≡ (if j == key then some v else value s j))
        ⊎ (value (S.set_key key v ttl s).1 j ≡ value s j)
  pub del_ok :
      (key : String) (s : S.State)
      → (S.del_key key s).0 ≡ ok tt
      → (j : String) → value (S.del_key key s).1 j ≡ (if j == key then none else value s j)
  pub get_ok : (key v : String) (s : S.State) → (S.get_key key s).0 ≡ ok v → value s key ≡ some v
  pub persist_keeps :
      (msg : ChatMessage) (s : S.State) (j : String)
      → value (S.persist_message msg s).1 j ≡ value s j
  pub write_keeps :
      (m : PersistedMessage) (s : S.State) (j : String)
      → value (S.write_json (ack_of m) s).1 j ≡ value s j

-- What the goroutine of a heartbeat receives.
pub data Signal : Type 0 where
  tick : Signal
  done : Signal

module _ (S : Services) where
  -- A failure to set the key is only logged.
  unfoldable pub heartbeat : String → String → List Signal → S.State → S.State
  heartbeat user_id addr [] s = s
  heartbeat user_id addr (tick ∷ signals) s =
      heartbeat user_id addr signals (register_user S user_id addr s).1
  heartbeat user_id addr (done ∷ signals) s = s

  -- The deferred function of a handler, when Redis has come to the given state.
  abbrev pub finish_at : S.State → String → String → Turn S → Turn S
  finish_at outside self_addr user_id t = finish S self_addr user_id (record {
    effects = t.effects;
    outcome = t.outcome;
    world = record { outside = outside; conns = t.world.conns };
  })

  finish_at-outside :
      (outside : S.State) (self_addr user_id : String) (t : Turn S)
      → IsWell t.world.conns
      → (finish_at outside self_addr user_id t).world.outside
        ≡ (unregister_user S user_id outside).1
  unfolding finish after_unregister
  finish_at-outside outside self_addr user_id t well = rw (end-ok t.world.conns user_id well) refl

  module _ (self_addr user_id : String) where
    abbrev sent_to : String → String → PersistedMessage → List Effect
    sent_to addr receiver_id m =
        if addr == self_addr then sent_here receiver_id m ∷ [] else sent_peer addr m ∷ []

    deliver-sent_to :
        (addr receiver_id : String) (m : PersistedMessage) (w : World S)
        → (deliver S self_addr user_id addr receiver_id m w).effects ≡ sent_to addr receiver_id m
    unfolding deliver deliver_here deliver_to_peer
    deliver-sent_to addr receiver_id m w = elim (Bool-cases (addr == self_addr)) [
      | inl e ↦ rw e refl
      | inr e ↦ rw e refl
    ]

    abbrev routed : Result String → String → PersistedMessage → List Effect
    routed (err e) receiver_id m = []
    routed (ok addr) receiver_id m = if addr == "" then [] else sent_to addr receiver_id m

    lookup-routed :
        (receiver_id : String) (m : PersistedMessage) (answer : Result String) (w : World S)
        → (after_lookup S self_addr user_id receiver_id m (answer, w)).effects
          ≡ routed answer receiver_id m
    unfolding after_lookup
    lookup-routed receiver_id m (err e) w = refl
    lookup-routed receiver_id m (ok addr) w = elim (Bool-cases (addr == "")) [
      | inl e ↦ rw e refl
      | inr e ↦ rw e (deliver-sent_to addr receiver_id m w)
    ]

    send-routed :
        (msg : ChatMessage) (m : PersistedMessage) (w : World S) (s s' : S.State)
        → S.persist_message msg w.outside ≡ (ok m, s)
        → S.write_json (ack_of m) s ≡ (ok tt, s')
        → (send S self_addr user_id msg w).effects
          ≡ stored msg m
            ∷ acked (ack_of m)
            ∷ routed (get_user_gateway S msg.receiver_id s').0 msg.receiver_id m
    unfolding send after_persist after_ack
    send-routed msg m w s s' persisted written = rw persisted (
        rw written (
          ap (λ xs. stored msg m ∷ acked (ack_of m) ∷ xs)
            (lookup-routed msg.receiver_id m (get_user_gateway S msg.receiver_id s').0
              (record { outside = (get_user_gateway S msg.receiver_id s').1; conns = w.conns }))))

-- A connection that was just opened takes a delivery.
open-takes :
    (u : String) (m : PersistedMessage) (s : Conns)
    → (deliver_local u m (open_conn u s)).0 ≡ ok true
unfolding deliver_local look_up send_found try_send open_conn make_chan register_conn set
open-takes u m s = rw (get-put s.conn_map u s.next u) (ground (arith, eq_refl u))

module _ (S : Services) (H : Presence S) where
  register-value :
      (u addr : String) (s : S.State)
      → (register_user S u addr s).0 ≡ ok tt
      → H.value (register_user S u addr s).1 (presence_key u) ≡ some addr
  unfolding register_user
  register-value u addr s h =
      let at = H.set_ok (presence_key u) addr presence_ttl s (omega arith) h (presence_key u) in
      ground (arith, at, eq_refl (presence_key u))

  heartbeat_keeps :
      (u addr : String) (signals : List Signal) (s : S.State)
      → H.value s (presence_key u) ≡ some addr
      → H.value (heartbeat S u addr signals s) (presence_key u) ≡ some addr
  unfolding heartbeat register_user
  heartbeat_keeps u addr [] s h = h
  heartbeat_keeps u addr (done ∷ signals) s h = h
  heartbeat_keeps u addr (tick ∷ signals) s h =
      heartbeat_keeps u addr signals (register_user S u addr s).1 (
        ground (
          arith,
          H.set_shape (presence_key u) addr presence_ttl s (presence_key u),
          eq_refl (presence_key u),
        ))

  unregister-value :
      (u : String) (s : S.State)
      → (unregister_user S u s).0 ≡ ok tt
      → H.value (unregister_user S u s).1 (presence_key u) ≡ none
  unfolding unregister_user
  unregister-value u s h =
      ground (arith, H.del_ok (presence_key u) s h (presence_key u), eq_refl (presence_key u))

  module _ (self_addr user_id : String) (msg : ChatMessage) (m : PersistedMessage)
      (w : World S) where
    stored_value :
        (s s' : S.State) (j : String)
        → S.persist_message msg w.outside ≡ (ok m, s)
        → S.write_json (ack_of m) s ≡ (ok tt, s')
        → H.value s' j ≡ H.value w.outside j
    stored_value s s' j persisted written =
        ap (λ p. H.value p.1 j) (sym written)
        ∙ H.write_keeps m s j
        ∙ ap (λ p. H.value p.1 j) (sym persisted)
        ∙ H.persist_keeps msg w.outside j

    -- When the receiver has registered at an address that is not empty, and its heartbeat has run
    -- since, with failures or none, then a message that is stored and acknowledged, and for which the
    -- presence key can be read, is sent to that address, and to the receiver's connection here if it
    -- is the address of this gateway.
    pub registered_reached :
        (addr found : String) (signals : List Signal) (s₀ s s' : S.State)
        → (addr == "") ≡ false
        → (register_user S msg.receiver_id addr s₀).0 ≡ ok tt
        → heartbeat S msg.receiver_id addr signals (register_user S msg.receiver_id addr s₀).1
          ≡ w.outside
        → S.persist_message msg w.outside ≡ (ok m, s)
        → S.write_json (ack_of m) s ≡ (ok tt, s')
        → (get_user_gateway S msg.receiver_id s').0 ≡ ok found
        → (send S self_addr user_id msg w).effects
          ≡ stored msg m
            ∷ acked (ack_of m)
            ∷ (if addr == self_addr
                then sent_here msg.receiver_id m ∷ []
                else sent_peer addr m ∷ [])
    unfolding get_user_gateway
    registered_reached addr found signals s₀ s s' known registered beats persisted written
          answered =
        let key = presence_key msg.receiver_id in
        let s₁ = (register_user S msg.receiver_id addr s₀).1 in
        let kept : H.value w.outside key ≡ some addr = rw (sym beats) (
          heartbeat_keeps msg.receiver_id addr signals s₁
            (register-value msg.receiver_id addr s₀ registered)) in
        let same : found ≡ addr =
          ground (
            arith,
            H.get_ok key found s' answered,
            stored_value s s' key persisted written,
            kept,
          ) in
        send-routed S self_addr user_id msg m w s s' persisted written
        ∙ ap (λ a. stored msg m ∷ acked (ack_of m) ∷ routed S self_addr user_id a msg.receiver_id m)
            (answered ∙ ap ok same)
        ∙ rw known refl

    none-routed :
        (s : S.State)
        → H.value s (presence_key msg.receiver_id) ≡ none
        → routed S self_addr user_id (get_user_gateway S msg.receiver_id s).0 msg.receiver_id m ≡ []
    unfolding get_user_gateway
    none-routed s gone =
        let key = presence_key msg.receiver_id in
        elim (Result-cases (S.get_key key s).0) [
          | inl (found, e) ↦ absurd (ground (arith, H.get_ok key found s e, gone))
          | inr (reason, e) ↦ rw e refl
        ]

    -- When a user connects to another gateway before the handler of its old connection is finished, and
    -- that handler deletes the presence key, then, as long as no SET has changed the key since, a message
    -- to the user that is stored and acknowledged is sent nowhere, although the new connection takes
    -- deliveries.
    pub reconnected_unreached :
        (new_addr old_addr : String) (new : World S) (old : Turn S) (s s' : S.State)
        → IsWell old.world.conns
        → let connected = connect S new_addr msg.receiver_id new in
          let left = finish_at S connected.outside old_addr msg.receiver_id old in
          (unregister_user S msg.receiver_id connected.outside).0 ≡ ok tt
          → H.value w.outside (presence_key msg.receiver_id)
            ≡ H.value left.world.outside (presence_key msg.receiver_id)
          → S.persist_message msg w.outside ≡ (ok m, s)
          → S.write_json (ack_of m) s ≡ (ok tt, s')
          → ((send S self_addr user_id msg w).effects ≡ stored msg m ∷ acked (ack_of m) ∷ [])
            × ((deliver_local msg.receiver_id m connected.conns).0 ≡ ok true)
    unfolding connect
    reconnected_unreached new_addr old_addr new old s s' well ended later persisted written =
        let key = presence_key msg.receiver_id in
        let outside = (connect S new_addr msg.receiver_id new).outside in
        let gone : H.value s' key ≡ none =
          stored_value s s' key persisted written
          ∙ later
          ∙ ap (λ o. H.value o key) (finish_at-outside S outside old_addr msg.receiver_id old well)
          ∙ unregister-value msg.receiver_id outside ended in
        (
          send-routed S self_addr user_id msg m w s s' persisted written
              ∙ ap (λ xs. stored msg m ∷ acked (ack_of m) ∷ xs) (none-routed s' gone),
          open-takes msg.receiver_id m new.conns,
        )
