-- ===== src/WebClient/Page/Restored.antt =====
-- Messages that a page load brings back from localStorage: loadState draws none of them.
use tinytelegram.Base.{◌≡◌, refl, String, false, Option, none, some, List, [], ◌∷◌, ◌∙◌, All}
use tinytelegram.Base.Dict.{get}
use tinytelegram.WebClient.{
  Saved, Shown, connect, on_open, save_state, update_pts, handle_ack, reload, load_state, load_form,
  fresh,
}
use tinytelegram.WebClient.Runs.{
  Event, opens, acknowledges, receives, sends, closes, reconnects, reloads, names,
}
use tinytelegram.WebClient.Page.{
  View, show_pts, show_ack, show_sent, show_open, show_close, show_reconnect, show_reload,
  show_step, show_run,
}
use tinytelegram.WebClient.Page.Bubbles.{bubbles_of}
use tinytelegram.WebClient.Page.Shows.{bubbles-system}
use tinytelegram.WebClient.Page.Hidden.{
  Stored, HiddenAt, hidden-ack, hidden-update, hidden-message, hidden-send, hidden-close,
  hidden-load,
}

module _ (id : String) (msg : Shown) where
  step-IsHidden :
      (e : Event) (v : View)
      → names id e ≡ false
      → HiddenAt id msg v.client v.page
      → HiddenAt id msg (show_step e v).client (show_step e v).page
  unfolding show_step show_open show_close show_ack show_sent show_reconnect show_reload show_pts
      handle_ack on_open connect save_state reload
  step-IsHidden opens v differs h = record {
    held = h.held;
    stored = h.held;
    settled = h.settled;
    absent = bubbles-system id v.page _ ∙ h.absent;
  }
  step-IsHidden (acknowledges ack) v differs h =
      let c = update_pts ack.sender_pts v.client in
      hidden-ack id msg c.pending_acks ack c v.page differs refl
        (hidden-update id msg ack.sender_pts v.client v.page h)
  step-IsHidden (receives m) v differs h = hidden-message id msg m.message m v differs h
  step-IsHidden (sends temp_id receiver_id content) v differs h =
      hidden-send id msg temp_id receiver_id content v.client v.page differs h
  step-IsHidden closes v differs h = hidden-close id msg v.client v.page h
  step-IsHidden reconnects v differs h = h
  step-IsHidden reloads v differs h =
      let (user_id, gateway_url) = load_form v.client.saved v.client.user_id v.client.gateway_url in
      hidden-load id msg v.client.saved user_id gateway_url h.stored

  run-IsHidden :
      (es : List Event) (v : View)
      → All (λ e. names id e ≡ false) es
      → HiddenAt id msg v.client v.page
      → HiddenAt id msg (show_run es v).client (show_run es v).page
  unfolding show_run
  run-IsHidden [] v differs h = h
  run-IsHidden (e ∷ es) v differs h =
      run-IsHidden es (show_step e v) differs.1 (step-IsHidden e v differs.0 h)

  saved_before :
      (o : Option Saved) (user_id gateway_url : String)
      → get (connect user_id gateway_url (load_state o (fresh o))).messages id ≡ some msg
      → Stored id msg o
  unfolding load_state connect get
  saved_before none user_id gateway_url h = cc
  saved_before (some st) user_id gateway_url h = h

  -- A message that a page load brings back is kept by the client through any events that have another
  -- id, connections and page loads included, and the page never has a bubble with its id.
  pub restored_hidden :
      (es : List Event) (v : View)
      → get (show_reload v).client.messages id ≡ some msg
      → All (λ e. names id e ≡ false) es
      → let v' = show_run es (show_reload v) in
        (get v'.client.messages id ≡ some msg) × (bubbles_of id v'.page ≡ [])
  unfolding show_reload reload
  restored_hidden es v restored differs =
      let c = v.client in
      let (user_id, gateway_url) = load_form c.saved c.user_id c.gateway_url in
      let stored = saved_before c.saved user_id gateway_url restored in
      let hidden =
        run-IsHidden es (show_reload v) differs
          (hidden-load id msg c.saved user_id gateway_url stored) in
      (hidden.held, hidden.absent)
