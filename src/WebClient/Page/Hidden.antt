-- ===== src/WebClient/Page/Hidden.antt =====
-- A message that the client has and that the page does not show, through each operation.
use mathlib.Core.List.{append-nil}
use tinytelegram.Base.{
  ℕ, suc, ◌≡◌, refl, String, false, Option, none, some, List, [], ◌∷◌, ◌++◌, ◌==◌, ltb,
  if◌then◌else◌, Bool-cases, Option-cases, inl, inr, ◌∙◌, All, All-append,
}
use tinytelegram.Base.Dict.{Dict, get, put, delete, get-put, get-delete}
use tinytelegram.Proto.{ChatMessage, PersistedMessage}
use tinytelegram.Gateway.Session.{Ack}
use tinytelegram.WebClient.{
  Client, Saved, Shown, connect, save_state, update_pts, reconcile, shift_pending, pts_of,
  handle_message, send_message, on_close, max_reconnect_attempts, load_state, fresh,
}
use tinytelegram.WebClient.Page.{
  View, Element, Piece, remove_bubble, system, display_message, reconcile_page, gap_notice,
  show_message, closing_notice,
}
use tinytelegram.WebClient.Page.Bubbles.{bubbles_of, bubbles-remove_other}
use tinytelegram.Base.Text.{flip}
use tinytelegram.WebClient.Page.Shows.{bubbles-system, bubbles-another}

module _ (id : String) (msg : Shown) where
  abbrev pub Stored : Option Saved → Type 0
  Stored none = ⊥
  Stored (some st) = get st.messages id ≡ some msg

  -- The client has the message, localStorage too, no acknowledgement is awaited for it, and the page
  -- has no bubble for it.
  pub record IsHidden (messages : Dict Shown) (saved : Option Saved) (pending : List String)
      (page : List Element) : Type 0 where
    pub held : get messages id ≡ some msg
    pub stored : Stored saved
    pub settled : All (λ t. (id == t) ≡ false) pending
    pub absent : bubbles_of id page ≡ []

  abbrev pub HiddenAt : Client → List Element → Type 0
  HiddenAt c page = IsHidden c.messages c.saved c.pending_acks page

  pub hidden-system :
      (c : Client) (p : List Element) (notice : List Piece)
      → HiddenAt c p
      → HiddenAt c (p ++ (system notice ∷ []))
  hidden-system c p notice h = record {
    held = h.held;
    stored = h.stored;
    settled = h.settled;
    absent = bubbles-system id p notice ∙ h.absent;
  }

  pub hidden-update :
      (n : ℕ) (c : Client) (p : List Element) → HiddenAt c p → HiddenAt (update_pts n c) p
  unfolding update_pts save_state
  hidden-update n c p h = elim (Bool-cases (ltb c.local_pts n)) [
    | inl e ↦
        rw e (record { held = h.held; stored = h.held; settled = h.settled; absent = h.absent })
    | inr e ↦ rw e h
  ]

  absent-display :
      (user_id other : String) (o : Option Shown) (p : List Element)
      → (id == other) ≡ false
      → bubbles_of id p ≡ []
      → bubbles_of id (p ++ display_message user_id other o) ≡ []
  absent-display user_id other none p differs h = rw (append-nil p) h
  absent-display user_id other (some m) p differs h =
      bubbles-another id user_id other m p (flip id other differs) ∙ h

  absent-gap :
      (local_pts pts : ℕ) (p : List Element)
      → bubbles_of id p ≡ []
      → bubbles_of id (p ++ gap_notice local_pts pts) ≡ []
  absent-gap local_pts pts p h = elim (Bool-cases (ltb (suc local_pts) pts)) [
    | inl gap ↦ rw gap (bubbles-system id p _ ∙ h)
    | inr next ↦ rw (next, append-nil p) h
  ]

  held-put :
      (d : Dict Shown) (other : String) (m : Shown)
      → (id == other) ≡ false
      → get d id ≡ some msg
      → get (put d other m) id ≡ some msg
  held-put d other m differs h = get-put d other m id ∙ rw differs h

  pub hidden-ack :
      (ids : List String) (ack : Ack) (c : Client) (p : List Element)
      → (id == ack.message_id) ≡ false
      → c.pending_acks ≡ ids
      → HiddenAt c p
      → let c' = shift_pending ids ack c in HiddenAt c' (reconcile_page ids ack c c' p)
  unfolding shift_pending reconcile
  hidden-ack [] ack c p differs e h = h
  hidden-ack (t ∷ rest) ack c p differs e h =
      let settled : All (λ t. (id == t) ≡ false) (t ∷ rest) = rw e at h.settled in
      elim (Option-cases (get c.messages t)) [
        | inl unknown ↦
            rw unknown
              (record { held = h.held; stored = h.stored; settled = settled.1; absent = h.absent })
        | inr (m, found) ↦ rw found (record {
          held =
              held-put (delete c.messages t) ack.message_id _ differs
                (get-delete c.messages t id ∙ rw settled.0 h.held);
          stored = h.stored;
          settled = settled.1;
          absent =
              absent-display c.user_id ack.message_id _ (remove_bubble t p) differs
                (bubbles-remove_other id t p (flip id t settled.0) ∙ h.absent);
        })
      ]

  pub hidden-message :
      (o : Option ChatMessage) (m : PersistedMessage) (v : View)
      → (id == m.id) ≡ false
      → HiddenAt v.client v.page
      → HiddenAt (show_message o m v).client (show_message o m v).page
  unfolding show_message handle_message save_state
  hidden-message none m v differs h = h
  hidden-message (some chat) m v differs h =
      let pts = pts_of v.client.user_id chat m in
      let c = update_pts pts v.client in
      let later = hidden-update pts v.client v.page h in
      let held = held-put c.messages m.id _ differs later.held in
      record {
        held = held;
        stored = held;
        settled = later.settled;
        absent =
            absent-display c.user_id m.id _ (v.page ++ gap_notice v.client.local_pts pts) differs
              (absent-gap v.client.local_pts pts v.page h.absent);
      }

  pub hidden-send :
      (temp_id receiver_id content : String) (c : Client) (p : List Element)
      → (id == temp_id) ≡ false
      → HiddenAt c p
      → let c' = send_message temp_id receiver_id content c in
        HiddenAt c' (
          if c.is_open
          then p ++ display_message c'.user_id temp_id (get c'.messages temp_id)
          else p)
  unfolding send_message
  hidden-send temp_id receiver_id content c p differs h = elim (Bool-cases c.is_open) [
    | inl e ↦ rw e (record {
      held = held-put c.messages temp_id _ differs h.held;
      stored = h.stored;
      settled =
          All-append (λ t. (id == t) ≡ false) c.pending_acks (temp_id ∷ []) h.settled (differs, tt);
      absent = absent-display c.user_id temp_id _ p differs h.absent;
    })
    | inr e ↦ rw e h
  ]

  pub hidden-close :
      (c : Client) (p : List Element)
      → HiddenAt c p
      → HiddenAt (on_close c).1 (p ++ (system (closing_notice (on_close c).0) ∷ []))
  unfolding on_close
  hidden-close c p h =
      let hidden = λ (notice : List Piece). hidden-system c p notice h in
      elim (Bool-cases (ltb c.reconnect_attempts max_reconnect_attempts)) [
        | inl e ↦ rw e (hidden _)
        | inr e ↦ rw e (hidden _)
      ]

  -- A page load, when localStorage has the message.
  pub hidden-load :
      (o : Option Saved) (user_id gateway_url : String)
      → Stored o
      → HiddenAt (connect user_id gateway_url (load_state o (fresh o))) []
  unfolding load_state connect bubbles_of
  hidden-load none user_id gateway_url h = elim h [ ]
  hidden-load (some st) user_id gateway_url h = record {
    held = h;
    stored = h;
    settled = tt;
    absent = refl;
  }
