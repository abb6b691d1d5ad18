-- ===== src/WebClient/Sent/Answered.antt =====
-- A client and the gateway that it is connected to: what becomes of the messages that it sends.
use mathlib.Core.Path.{subst}
use tinytelegram.Base.{
  ◌≡◌, refl, String, true, false, Option, some, List, [], ◌∷◌, ◌++◌, map, length, ◌==◌, ap, ◌∙◌,
  sym, All, All-map,
}
use tinytelegram.Base.Dict.{get}
use tinytelegram.Base.Text.{flip}
use tinytelegram.Proto.{ChatMessage, PersistedMessage}
use tinytelegram.Gateway.Session.{ack_of, IncomingMessage, Services, World, web_socket_handler}
use tinytelegram.Gateway.Session.Acks.{StoredFor, acks_in, stored_in, Readable, handler-Bounded}
use tinytelegram.WebClient.{Client, Shown, handle_ack}
use tinytelegram.WebClient.Acks.{acknowledged, unacknowledged}
use tinytelegram.WebClient.Runs.{Event, acknowledges, step, run}
use tinytelegram.WebClient.Sent.{
  Outgoing, send_event, Distinct, temp_ids, Waits, ShownStored, shown_as, sends_lem, ack_lem,
}

abbrev pub ids_of : List (ChatMessage × PersistedMessage) → List String
ids_of = map (λ p. p.1.id)

-- No id is there twice, as a temporary one or as one of the service.
abbrev pub AllApart : List String → List String → Type 0
AllApart ts ids = Distinct ts × Distinct ids × All (λ t. All (λ i. (t == i) ≡ false) ids) ts

run-append : (xs ys : List Event) (c : Client) → run (xs ++ ys) c ≡ run ys (run xs c)
unfolding run
run-append [] ys c = refl
run-append (x ∷ xs) ys c = run-append xs ys (step x c)

-- What waits keeps waiting when another message is acknowledged.
still-Waits :
    (os : List Outgoing) (t id : String) (c c' : Client)
    → c'.user_id ≡ c.user_id
    → ((k : String) → (k == t) ≡ false → (k == id) ≡ false → get c'.messages k ≡ get c.messages k)
    → All (λ y. (t == y) ≡ false) (temp_ids os)
    → All (λ y. (y == id) ≡ false) (temp_ids os)
    → All (Waits c) os
    → All (Waits c') os
still-Waits [] t id c c' user kept apart new waits = tt
still-Waits (o ∷ os) t id c c' user kept apart new waits = (
  kept o.temp_id (flip t o.temp_id apart.0) new.0
      ∙ waits.0
      ∙ ap (λ u. some (unacknowledged u o.temp_id o.incoming.receiver_id o.incoming.content))
          (sym user),
  still-Waits os t id c c' user kept apart.1 new.1 waits.1,
)

stored_as :
    (c : Client) (o : Outgoing) (msg : ChatMessage) (m : PersistedMessage)
    → c.user_id ≡ msg.sender_id
    → msg.receiver_id ≡ o.incoming.receiver_id
    → msg.content ≡ o.incoming.content
    → ◌≡◌ {A = Option Shown}
        (some (
          acknowledged
            (ack_of m)
            (unacknowledged c.user_id o.temp_id o.incoming.receiver_id o.incoming.content)))
        (some (shown_as msg m))
unfolding ack_of
stored_as c o msg m user receiver content = cc

abbrev ack_event : ChatMessage × PersistedMessage → Event
ack_event p = acknowledges (ack_of p.1)

acks_lem :
    (u : String) (os : List Outgoing) (ps : List (ChatMessage × PersistedMessage)) (c : Client)
    → c.user_id ≡ u
    → c.pending_acks ≡ temp_ids os
    → All (Waits c) os
    → StoredFor u (map (λ o. o.incoming) os) ps
    → AllApart (temp_ids os) (ids_of ps)
    → let c' = run (map ack_event ps) c in
      (c'.pending_acks ≡ [])
      × All (ShownStored c') ps
      × ((k : String)
          → All (λ y. (k == y) ≡ false) (temp_ids os)
          → All (λ y. (k == y) ≡ false) (ids_of ps)
          → get c'.messages k ≡ get c.messages k)
unfolding run step ack_of
acks_lem u [] [] c user pending waits from apart = (pending, tt, λ k a b. refl)
acks_lem u [] (p ∷ ps) c user pending waits from apart = elim from [ ]
acks_lem u (o ∷ os) [] c user pending waits from apart = elim from [ ]
acks_lem u (o ∷ os) ((msg, m) ∷ ps) c user pending waits from
      ((t_apart, ts), (id_apart, ids), (t_new, new)) =
    let Apart = λ (t : String). All (λ i. (t == i) ≡ false) (m.id ∷ ids_of ps) in
    let heads = All-map Apart (λ t. (t == m.id) ≡ false) (temp_ids os) (λ t h. h.0) new in
    let turned =
      All-map Apart (λ t. (m.id == t) ≡ false) (temp_ids os) (λ t h. flip t m.id h.0) new in
    let tails =
      All-map Apart (λ t. All (λ i. (t == i) ≡ false) (ids_of ps)) (temp_ids os) (λ t h. h.1) new in
    let c₁ = handle_ack (ack_of m) c in
    let (user₁, pending₁, shown₁, kept₁) =
      ack_lem o.temp_id (temp_ids os) (ack_of m) _ c pending waits.0 in
    let waits₁ = still-Waits os o.temp_id m.id c c₁ user₁ kept₁ t_apart heads waits.1 in
    let (done, shown, kept) =
      acks_lem u os ps c₁ (user₁ ∙ user) pending₁ waits₁ from.1 (ts, ids, tails) in
    (
      done,
      (
        kept m.id turned id_apart
            ∙ shown₁
            ∙ stored_as c o msg m (user ∙ sym from.0.0) from.0.1 from.0.2,
        shown,
      ),
      λ k a b. kept k a.1 b.1 ∙ kept₁ k a.0 b.0,
    )

map_acks :
    (ps : List (ChatMessage × PersistedMessage))
    → map acknowledges (map (λ p. ack_of p.1) ps) ≡ map ack_event ps
map_acks [] = refl
map_acks (p ∷ ps) = rw (map_acks ps)

length-incoming : (os : List Outgoing) → length (map (λ o. o.incoming) os) ≡ length os
length-incoming [] = refl
length-incoming (o ∷ os) = rw (length-incoming os)

module _ (S : Services) (self_addr : String) (marshal : IncomingMessage → String) where
  -- A client with an open connection and no message under way sends messages, and its gateway
  -- reads their frames as they were written. When the gateway writes as many acknowledgements, and
  -- no id is there twice, then every message was stored as it was sent, in order, and after the
  -- acknowledgements the client waits for none, and shows each message under the id and with the
  -- sender's number it was stored with.
  pub sent_shown :
      (os : List Outgoing) (c : Client) (w : World S)
      → c.is_open ≡ true
      → c.pending_acks ≡ []
      → (c.user_id == "") ≡ false
      → Readable S self_addr c.user_id marshal (map (λ o. o.incoming) os)
      → let frames = map marshal (map (λ o. o.incoming) os) in
        let effects = (web_socket_handler S self_addr c.user_id (some frames) w).effects in
        length (acks_in effects) ≡ length os
        → AllApart (temp_ids os) (ids_of (stored_in effects))
        → let c' = run (map send_event os ++ map acknowledges (acks_in effects)) c in
          StoredFor c.user_id (map (λ o. o.incoming) os) (stored_in effects)
          × (c'.pending_acks ≡ [])
          × All (ShownStored c') (stored_in effects)
  sent_shown os c w is_open idle named readable all_acked apart =
      let ms = map (λ o. o.incoming) os in
      let (at_most, complete) = handler-Bounded S self_addr c.user_id marshal ms w named readable in
      let (from, answered) = complete (all_acked ∙ sym (length-incoming os)) in
      let effects = (web_socket_handler S self_addr c.user_id (some (map marshal ms)) w).effects in
      let c₁ = run (map send_event os) c in
      let (user, pending, waits) = sends_lem os c is_open apart.0 in
      let (done, shown, kept) =
        acks_lem c.user_id os (stored_in effects) c₁ user (pending ∙ rw idle refl) waits from
          apart in
      let same = run-append (map send_event os) (map acknowledges (acks_in effects)) c in
      let final =
        same
        ∙ ap (λ l. run (map acknowledges l) c₁) answered
        ∙ ap (λ es. run es c₁) (map_acks (stored_in effects)) in
      (
        from,
        ap (λ d. d.pending_acks) final ∙ done,
        subst (λ d. All (ShownStored d) (stored_in effects)) (sym final) shown,
      )
