-- ===== src/WebClient/Runs.antt =====
-- The client over time.
use Prim.Native.Nat.{max}
use tinytelegram.Base.{
  ℕ, ◌≤◌, ◌≡◌, String, Option, none, some, List, [], ◌∷◌, refl, arith, ◌↔◌, sym, ◌∙◌, inl, inr,
  Bool, false, ◌==◌, Bool-cases, Option-cases,
}
use tinytelegram.Base.Dict.{get}
use tinytelegram.Proto.{ChatMessage, PersistedMessage}
use tinytelegram.Gateway.Session.{Ack}
use tinytelegram.WebClient.{
  Client, Saved, Shown, fresh, save_state, load_state, connect, on_open, update_pts, reconcile,
  shift_pending, handle_ack, pts_of, handle_message, handle_incoming_message, send_message,
  on_close, load_form, filled, reload, max_reconnect_attempts,
}

pub data Event : Type 0 where
  opens : Event
  acknowledges : Ack → Event
  receives : PersistedMessage → Event
  sends : String → String → String → Event
  closes : Event
  reconnects : Event
  reloads : Event

-- The event has the id.
abbrev pub names : String → Event → Bool
names id (acknowledges ack) = id == ack.message_id
names id (receives m) = id == m.id
names id (sends temp_id receiver_id content) = id == temp_id
names id opens = false
names id closes = false
names id reconnects = false
names id reloads = false

unfoldable pub step : Event → Client → Client
unfolding on_open handle_ack handle_incoming_message send_message on_close connect reload
step opens c = on_open c
step (acknowledges ack) c = handle_ack ack c
step (receives m) c = handle_incoming_message m c
step (sends temp_id receiver_id content) c = send_message temp_id receiver_id content c
step closes c = (on_close c).1
step reconnects c = connect c.user_id c.gateway_url c
step reloads c = reload c

unfoldable pub run : List Event → Client → Client
run [] c = c
run (e ∷ es) c = run es (step e c)

-- The number that an event brings for the user, 0 if none.
abbrev pub brings_message : String → Option ChatMessage → PersistedMessage → ℕ
brings_message user_id none m = 0
brings_message user_id (some msg) m = pts_of user_id msg m

abbrev pub brings : String → Event → ℕ
brings user_id (acknowledges ack) = ack.sender_pts
brings user_id (receives m) = brings_message user_id m.message m
brings user_id opens = 0
brings user_id (sends temp_id receiver_id content) = 0
brings user_id closes = 0
brings user_id reconnects = 0
brings user_id reloads = 0

abbrev pub highest : String → ℕ → List Event → ℕ
highest user_id n [] = n
highest user_id n (e ∷ es) = highest user_id (max n (brings user_id e)) es

abbrev saved_pts : Option Saved → ℕ
saved_pts none = 0
saved_pts (some st) = st.local_pts

abbrev SavedUser : Option Saved → String → Type 0
SavedUser none user_id = Unit
SavedUser (some st) user_id = st.user_id ≡ user_id

-- What is saved has the number and the user of the client.
unfoldable pub IsSaved : Client → Type 0
IsSaved c = (saved_pts c.saved ≡ c.local_pts) × SavedUser c.saved c.user_id

reconcile_keeps :
    (o : Option Shown) (temp_id : String) (ack : Ack) (c : Client)
    → let c' = reconcile o temp_id ack c in
      (c'.local_pts ≡ c.local_pts)
      × (c'.saved ≡ c.saved)
      × (c'.user_id ≡ c.user_id)
      × (c'.reconnect_attempts ≡ c.reconnect_attempts)
      × (c'.is_open ≡ c.is_open)
unfolding reconcile
reconcile_keeps none temp_id ack c = (refl, refl, refl, refl, refl)
reconcile_keeps (some msg) temp_id ack c = (refl, refl, refl, refl, refl)

pub shift_keeps :
    (ids : List String) (ack : Ack) (c : Client)
    → let c' = shift_pending ids ack c in
      (c'.local_pts ≡ c.local_pts)
      × (c'.saved ≡ c.saved)
      × (c'.user_id ≡ c.user_id)
      × (c'.reconnect_attempts ≡ c.reconnect_attempts)
      × (c'.is_open ≡ c.is_open)
unfolding shift_pending
shift_keeps [] ack c = (refl, refl, refl, refl, refl)
shift_keeps (temp_id ∷ rest) ack c =
    reconcile_keeps (get c.messages temp_id) temp_id ack (record c { pending_acks = rest })

message_pts :
    (o : Option ChatMessage) (m : PersistedMessage) (c : Client)
    → IsSaved c
    → let c' = handle_message o m c in
      IsSaved c'
      × (c'.local_pts ≡ max c.local_pts (brings_message c.user_id o m))
      × (c'.user_id ≡ c.user_id)
unfolding handle_message update_pts save_state IsSaved
message_pts none m c h = (h, omega arith, refl)
message_pts (some msg) m c h = ground arith

filled-same : (saved typed : String) → saved ≡ typed → filled saved typed ≡ typed
filled-same saved typed same = elim (Bool-cases (saved == "")) [
  | inl e ↦ rw e refl
  | inr e ↦ rw e same
]

load_pts :
    (c : Client)
    → IsSaved c
    → IsSaved (reload c) × ((reload c).local_pts ≡ c.local_pts) × ((reload c).user_id ≡ c.user_id)
unfolding reload load_state load_form connect IsSaved
load_pts c h = elim (Option-cases c.saved) [
  | inl none_saved ↦ let (pts, user) = rw none_saved at h in rw none_saved ((refl, tt), pts, refl)
  | inr (st, saved) ↦
      let (pts, user) = rw saved at h in
      let same = filled-same st.user_id c.user_id user in
      rw saved ((refl, user ∙ sym same), pts, same)
]

load_attempts : (o : Option Saved) → (load_state o (fresh o)).reconnect_attempts ≡ 0
unfolding load_state
load_attempts none = refl
load_attempts (some st) = refl

message_attempts :
    (o : Option ChatMessage) (m : PersistedMessage) (c : Client)
    → (handle_message o m c).reconnect_attempts ≡ c.reconnect_attempts
unfolding handle_message update_pts save_state
message_attempts none m c = refl
message_attempts (some msg) m c = ground arith

step_attempts :
    (e : Event) (c : Client)
    → c.reconnect_attempts ≤ max_reconnect_attempts
    → (step e c).reconnect_attempts ≤ max_reconnect_attempts
unfolding step on_open handle_ack handle_incoming_message send_message on_close connect reload
    update_pts save_state
step_attempts opens c h = omega arith
step_attempts (acknowledges ack) c h =
    let c' = update_pts ack.sender_pts c in
    let kept = shift_keeps c'.pending_acks ack c' in ground (arith, kept)
step_attempts (receives m) c h = omega (arith, h, message_attempts m.message m c)
step_attempts (sends temp_id receiver_id content) c h = ground arith
step_attempts closes c h = ground arith
step_attempts reconnects c h = h
step_attempts reloads c h = omega (arith, load_attempts c.saved)

step_pts :
    (e : Event) (c : Client)
    → IsSaved c
    → IsSaved (step e c)
      × ((step e c).local_pts ≡ max c.local_pts (brings c.user_id e))
      × ((step e c).user_id ≡ c.user_id)
unfolding step on_open handle_ack handle_incoming_message send_message on_close connect reload
    update_pts save_state IsSaved
step_pts opens c h = ((refl, refl), omega arith, refl)
step_pts (acknowledges ack) c h =
    let c' = update_pts ack.sender_pts c in
    let kept = shift_keeps c'.pending_acks ack c' in ground arith
step_pts (receives m) c h = message_pts m.message m c h
step_pts (sends temp_id receiver_id content) c h = ground arith
step_pts closes c h = ground arith
step_pts reconnects c h = (h, omega arith, refl)
step_pts reloads c h = let (saved, pts, user) = load_pts c h in (saved, omega (arith, pts), user)

-- Through any events, page loads included, the number of a client is the highest of those it had and
-- those that acknowledgements and messages brought, if what was saved before had its number and user.
pub run-pts :
    (es : List Event) (c : Client)
    → IsSaved c
    → (run es c).local_pts ≡ highest c.user_id c.local_pts es
unfolding run
run-pts [] c h = refl
run-pts (e ∷ es) c h =
    let (saved, pts, user) = step_pts e c h in rw (run-pts es (step e c) saved, pts, user) refl

pub run_attempts :
    (es : List Event) (c : Client)
    → c.reconnect_attempts ≤ max_reconnect_attempts
    → (run es c).reconnect_attempts ≤ max_reconnect_attempts
unfolding run
run_attempts [] c h = h
run_attempts (e ∷ es) c h = run_attempts es (step e c) (step_attempts e c h)

-- From a client with at most five failed attempts, however often connections fail, a wait before an
-- attempt to connect is at most ten seconds, and there is no further attempt exactly after five
-- failures with no connection or page load in between.
pub reconnect_bounded :
    (es : List Event) (c : Client)
    → c.reconnect_attempts ≤ max_reconnect_attempts
    → let c' = run es c in
      ((d : ℕ) → (on_close c').0 ≡ some d → d ≤ 10000)
      × (((on_close c').0 ≡ none) ↔ (c'.reconnect_attempts ≡ max_reconnect_attempts))
unfolding on_close
reconnect_bounded es c h = let bound = run_attempts es c h in ((λ d e. ground arith), ground arith)
