-- ===== src/WebClient/Page/Since.antt =====
-- The page through any events from a page load to the next one.
use mathlib.Core.List.{append-nil}
use tinytelegram.Base.{
  ℕ, suc, ◌≡◌, ◌⊎◌, refl, arith, String, Bool, true, false, Option, none, some, List, [], ◌∷◌, ◌++◌,
  ltb, if◌then◌else◌, eq_refl, Bool-cases, Option-cases, inl, inr, ◌∙◌,
}
use tinytelegram.Base.Dict.{Dict, get, put, delete, get-put}
use tinytelegram.Proto.{ChatMessage, PersistedMessage}
use tinytelegram.Gateway.Session.{Ack}
use tinytelegram.WebClient.{
  Client, Shown, connect, on_open, save_state, update_pts, reconcile, shift_pending, handle_ack,
  pts_of, handle_message, send_message, on_close, max_reconnect_attempts, reload, load_state,
}
use tinytelegram.WebClient.Runs.{
  Event, opens, acknowledges, receives, sends, closes, reconnects, reloads,
}
use tinytelegram.WebClient.Acks.{update_keeps, acknowledged, unacknowledged}
use tinytelegram.WebClient.Reload.{update-user_id, received_as}
use tinytelegram.WebClient.Page.{
  View, Element, Piece, remove_bubble, system, display_message, reconcile_page, gap_notice,
  show_pts, show_ack, show_message, show_sent, show_open, show_close, show_reconnect, show_reload,
  show_step, show_run, closing_notice,
}
use tinytelegram.WebClient.Page.Bubbles.{bubbles_of}
use tinytelegram.WebClient.Page.Shows.{
  fewer-Follows, more-Follows, unseen, IsShown, Follows, system-Follows, put-Follows,
  delete-Follows,
}

module _ (is_temp : String → Bool) where
  -- Ids of the service are not temporary, and a temporary id that is made is not in use.
  abbrev pub Allowed : Event → View → Type 0
  Allowed (acknowledges ack) v = is_temp ack.message_id ≡ false
  Allowed (receives m) v = is_temp m.id ≡ false
  Allowed (sends temp_id receiver_id content) v =
      (is_temp temp_id ≡ true) × (get v.client.messages temp_id ≡ none)
  Allowed opens v = Unit
  Allowed closes v = Unit
  Allowed reconnects v = Unit
  Allowed reloads v = ⊥

  abbrev pub AllAllowed : List Event → View → Type 0
  AllAllowed [] v = Unit
  AllAllowed (e ∷ es) v = Allowed e v × AllAllowed es (show_step e v)

module _ (is_temp : String → Bool) (loaded : Dict Shown) where
  abbrev FollowsAt : String → Client → List Element → Type 0
  FollowsAt user_id c page =
      (c.user_id ≡ user_id) × Follows is_temp loaded user_id c.messages c.pending_acks page

  -- A message, drawn as it has just come.
  put-display :
      (u user_id : String) (d : Dict Shown) (ids : List String) (p : List Element) (id : String)
      (msg : Shown)
      → user_id ≡ u
      → (is_temp id ≡ false) ⊎ (bubbles_of id p ≡ [])
      → Follows is_temp loaded u d ids p
      → Follows is_temp loaded u
          (put d id msg)
          ids
          (p ++ display_message user_id id (get (put d id msg) id))
  put-display u user_id d ids p id msg same new h =
      rw (same, get-put d id msg id, eq_refl id) (put-Follows is_temp loaded u d ids p id msg new h)

  gap-Follows :
      (u : String) (d : Dict Shown) (ids : List String) (p : List Element) (local_pts pts : ℕ)
      → Follows is_temp loaded u d ids p
      → Follows is_temp loaded u d ids (p ++ gap_notice local_pts pts)
  gap-Follows u d ids p local_pts pts h = elim (Bool-cases (ltb (suc local_pts) pts)) [
    | inl gap ↦ rw gap (system-Follows is_temp loaded u d ids p _ h)
    | inr next ↦ rw (next, append-nil p) h
  ]

  ack-Follows :
      (u : String) (ids : List String) (ack : Ack) (c : Client) (p : List Element)
      → is_temp ack.message_id ≡ false
      → c.pending_acks ≡ ids
      → FollowsAt u c p
      → let c' = shift_pending ids ack c in FollowsAt u c' (reconcile_page ids ack c c' p)
  unfolding shift_pending reconcile
  ack-Follows u [] ack c p other e h = h
  ack-Follows u (t ∷ rest) ack c p other e h =
      let follows : Follows is_temp loaded u c.messages (t ∷ rest) p = rw (← e) h.1 in
      elim (Option-cases (get c.messages t)) [
        | inl absent ↦ rw absent (h.0, fewer-Follows is_temp loaded u c.messages t rest p follows)
        | inr (msg, found) ↦
            let taken =
              delete-Follows is_temp loaded u c.messages rest p t follows.waiting.0
                (fewer-Follows is_temp loaded u c.messages t rest p follows) in
            rw found (
              h.0,
              put-display u c.user_id (delete c.messages t) rest (remove_bubble t p) ack.message_id
                  (acknowledged ack msg) h.0 (inl other) taken,
            )
      ]

  update-Follows :
      (u : String) (n : ℕ) (c : Client) (p : List Element)
      → FollowsAt u c p
      → FollowsAt u (update_pts n c) p
  update-Follows u n c p h =
      let (messages, pending) = update_keeps n c in
      (update-user_id n c ∙ h.0, rw (messages, pending) h.1)

  send-Follows :
      (u temp_id receiver_id content : String) (c : Client) (p : List Element)
      → is_temp temp_id ≡ true
      → get c.messages temp_id ≡ none
      → FollowsAt u c p
      → let c' = send_message temp_id receiver_id content c in
        FollowsAt u c' (
          if c.is_open
          then p ++ display_message c'.user_id temp_id (get c'.messages temp_id)
          else p)
  unfolding send_message
  send-Follows u temp_id receiver_id content c p temp unused h = elim (Bool-cases c.is_open) [
    | inl e ↦ rw e (
      h.0,
      put-display u c.user_id c.messages (c.pending_acks ++ (temp_id ∷ [])) p temp_id
          (unacknowledged c.user_id temp_id receiver_id content) h.0
          (inr (unseen is_temp loaded u c.messages c.pending_acks p temp_id unused h.1))
          (more-Follows is_temp loaded u c.messages temp_id c.pending_acks p temp h.1),
    )
    | inr e ↦ rw e h
  ]

  close-Follows :
      (u : String) (c : Client) (p : List Element)
      → FollowsAt u c p
      → FollowsAt u (on_close c).1 (p ++ (system (closing_notice (on_close c).0) ∷ []))
  unfolding on_close
  close-Follows u c p h =
      let follows = λ (notice : List Piece).
        system-Follows is_temp loaded u c.messages c.pending_acks p notice h.1 in
      elim (Bool-cases (ltb c.reconnect_attempts max_reconnect_attempts)) [
        | inl e ↦ rw e (h.0, follows _)
        | inr e ↦ rw e (h.0, follows _)
      ]

  message-Follows :
      (o : Option ChatMessage) (m : PersistedMessage) (v : View) (u : String)
      → is_temp m.id ≡ false
      → FollowsAt u v.client v.page
      → FollowsAt u (show_message o m v).client (show_message o m v).page
  unfolding show_message handle_message save_state
  message-Follows none m v u other h = h
  message-Follows (some msg) m v u other h =
      let pts = pts_of v.client.user_id msg m in
      let c = update_pts pts v.client in
      let (user, follows) = update-Follows u pts v.client v.page h in
      (
        user,
        put-display u c.user_id c.messages c.pending_acks
            (v.page ++ gap_notice v.client.local_pts pts) m.id (received_as m msg pts) user
            (inl other)
            (gap-Follows u c.messages c.pending_acks v.page v.client.local_pts pts follows),
      )

  step-Follows :
      (e : Event) (v : View) (u : String)
      → Allowed is_temp e v
      → FollowsAt u v.client v.page
      → FollowsAt u (show_step e v).client (show_step e v).page
  unfolding show_step show_open show_close show_ack show_sent show_reconnect show_pts handle_ack
      on_open connect save_state
  step-Follows opens v u a h =
      (h.0, system-Follows is_temp loaded u v.client.messages v.client.pending_acks v.page _ h.1)
  step-Follows (acknowledges ack) v u a h =
      let c = update_pts ack.sender_pts v.client in
      ack-Follows u c.pending_acks ack c v.page a refl
        (update-Follows u ack.sender_pts v.client v.page h)
  step-Follows (receives m) v u a h = message-Follows m.message m v u a h
  step-Follows (sends temp_id receiver_id content) v u a h =
      send-Follows u temp_id receiver_id content v.client v.page a.0 a.1 h
  step-Follows closes v u a h = close-Follows u v.client v.page h
  step-Follows reconnects v u a h = h
  step-Follows reloads v u a h = elim a [ ]

  run-Follows :
      (es : List Event) (v : View) (u : String)
      → AllAllowed is_temp es v
      → FollowsAt u v.client v.page
      → FollowsAt u (show_run es v).client (show_run es v).page
  unfolding show_run
  run-Follows [] v u a h = h
  run-Follows (e ∷ es) v u a h = run-Follows es (show_step e v) u a.1 (step-Follows e v u a.0 h)

none_waiting : (c : Client) → (reload c).pending_acks ≡ []
unfolding reload load_state connect
none_waiting c = elim (Option-cases c.saved) [ inl e ↦ rw e refl | inr (st, e) ↦ rw e refl ]

load-Follows :
    (is_temp : String → Bool) (v : View)
    → let c = (show_reload v).client in
      Follows is_temp c.messages c.user_id c.messages c.pending_acks (show_reload v).page
unfolding show_reload bubbles_of
load-Follows is_temp v = record {
  shown = λ k. inr (refl, refl);
  once = λ k temp. omega arith;
  waiting = rw (none_waiting v.client) tt;
}

-- From a page load on, and through any events up to the next one, when ids of the service are told from
-- temporary ones, and each temporary id is new when it is made: of every id, the lowest bubble on the
-- page shows the message as the client has it, and there is none if it has none; or the client has had
-- the message since the page load, and it has no bubble.
pub page_shows :
    (is_temp : String → Bool) (es : List Event) (v : View)
    → AllAllowed is_temp es (show_reload v)
    → (k : String)
    → let before = (show_reload v).client in
      let after = show_run es (show_reload v) in
      IsShown before.user_id before.messages after.client.messages after.page k
page_shows is_temp es v a k =
    let v₀ = show_reload v in
    (run-Follows is_temp v₀.client.messages es v₀ v₀.client.user_id a
        (refl, load-Follows is_temp v)).1.shown
      k
