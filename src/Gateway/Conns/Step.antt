-- ===== src/Gateway/Conns/Step.antt =====
-- The goroutines of a gateway, one access to the connections at a time, and what holds in every state
-- that they reach.
use mathlib.Core.Path.{subst}
use tinytelegram.Base.{
  ℕ, ◌<◌, ◌≡◌, String, Bool, false, Option, none, some, arith, refl, eq_iff, length, ltb,
  if◌then◌else◌, ◌==◌, Option-cases, inl, inr, ap, List, [], ◌∷◌,
}
use tinytelegram.Base.Dict.{get, get-put, get-delete}
use tinytelegram.Base.Exec.{ok}
use tinytelegram.Proto.{PersistedMessage}
use tinytelegram.Gateway.Conns.{
  Conns, chan_capacity, no_conns, set, make_chan, close_chan, register_conn, forget, close_found,
  unregister_conn, look_up, try_send, take_first, send_found, deliver_local, receive, open_conn,
}

-- A user connects; a connection of a user ends; a message is sent to a channel that was looked up at
-- some earlier time, since `DeliverLocal` sends after it has given the lock back; the goroutine that
-- writes to a connection takes a message.
pub data Step (s s' : Conns) : Type 0 where
  connects : (user_id : String) → s' ≡ open_conn user_id s → Step s s'
  ends : (user_id : String) → unregister_conn user_id s ≡ (ok tt, s') → Step s s'
  sends :
      (i : ℕ) (msg : PersistedMessage) (b : Bool)
      → i < s.next
      → try_send i msg s ≡ (ok b, s')
      → Step s s'
  receives : (i : ℕ) → i < s.next → s' ≡ (receive i s).1 → Step s s'

pub data Reach (s : Conns) : Conns → Type 0 where
  here : Reach s s
  next : {t u : Conns} → Reach s t → Step t u → Reach s u

-- A registered channel was made and is open, and it is registered for one user.
pub record IsWell (s : Conns) : Type 0 where
  pub made : (u : String) (i : ℕ) → get s.conn_map u ≡ some i → i < s.next
  pub is_open : (u : String) (i : ℕ) → get s.conn_map u ≡ some i → (s.chans i).is_closed ≡ false
  pub unshared :
      (u v : String) (i : ℕ) → get s.conn_map u ≡ some i → get s.conn_map v ≡ some i → u ≡ v

pub no_conns-IsWell : IsWell no_conns
unfolding get
no_conns-IsWell = record {
  made = λ u i h. ground arith;
  is_open = λ u i h. ground arith;
  unshared = λ u v i h k. ground arith;
}

pub open-IsWell : (u : String) (s : Conns) → IsWell s → IsWell (open_conn u s)
unfolding open_conn make_chan register_conn set
open-IsWell u s h =
    let at = get-put s.conn_map u s.next in
    record {
      made = λ v i e. ground (arith, at v, h.made v i);
      is_open = λ v i e. ground (arith, at v, h.made v i, h.is_open v i);
      unshared = λ v w i e e'.
          ground
            (arith, at v, at w, eq_iff v u, eq_iff w u, h.made v i, h.made w i, h.unshared v w i);
    }

send-IsWell :
    (i : ℕ) (msg : PersistedMessage) (b : Bool) (s s' : Conns)
    → try_send i msg s ≡ (ok b, s')
    → IsWell s
    → IsWell s'
unfolding try_send set
send-IsWell i msg b s s' e h = record {
  made = λ v j k. ground (arith, h.made v j);
  is_open = λ v j k. ground (arith, h.made v j, h.is_open v j);
  unshared = λ v w j k k'. ground (arith, h.unshared v w j);
}

close-IsWell :
    (u : String) (i : ℕ) (s s' : Conns)
    → get s.conn_map u ≡ some i
    → close_found u (some i) s ≡ (ok tt, s')
    → IsWell s
    → IsWell s'
unfolding close_found close_chan forget set
close-IsWell u i s s' found e h =
    let at = get-delete s.conn_map u in
    record {
      made = λ v j k. ground (arith, at v, h.made v j);
      is_open = λ v j k. ground (arith, at v, h.is_open v j, eq_iff v u, h.unshared v u j);
      unshared = λ v w j k k'. ground (arith, at v, at w, h.unshared v w j);
    }

pub end-IsWell :
    (u : String) (s s' : Conns) → unregister_conn u s ≡ (ok tt, s') → IsWell s → IsWell s'
unfolding unregister_conn close_found
end-IsWell u s s' e h = elim (Option-cases (get s.conn_map u)) [
  | inl none_there ↦
      let same : s ≡ s' =
        ap (λ p. p.1) (subst (λ o. close_found u o s ≡ (ok tt, s')) none_there e) in
      subst IsWell same h
  | inr (i, found) ↦
      close-IsWell u i s s' found (subst (λ o. close_found u o s ≡ (ok tt, s')) found e) h
]

take-IsWell :
    (i : ℕ) (q : List PersistedMessage) (s : Conns) → IsWell s → IsWell (take_first i q s).1
unfolding take_first set
take-IsWell i [] s h = h
take-IsWell i (m ∷ rest) s h = record {
  made = h.made;
  is_open = λ v j k. ground (arith, h.is_open v j);
  unshared = h.unshared;
}

Step-IsWell : (s s' : Conns) → Step s s' → IsWell s → IsWell s'
unfolding receive
Step-IsWell s s' (connects u e) h = rw e (open-IsWell u s h)
Step-IsWell s s' (ends u e) h = end-IsWell u s s' e h
Step-IsWell s s' (sends i msg b made e) h = send-IsWell i msg b s s' e h
Step-IsWell s s' (receives i made e) h = rw e (take-IsWell i (s.chans i).queue s h)

pub Reach-IsWell : {s : Conns} → Reach no_conns s → IsWell s
Reach-IsWell here = no_conns-IsWell
Reach-IsWell (next {t} {u} r st) = Step-IsWell t u st (Reach-IsWell r)

pub end-ok : (s : Conns) (user_id : String) → IsWell s → (unregister_conn user_id s).0 ≡ ok tt
unfolding unregister_conn close_found close_chan
end-ok s user_id h = elim (Option-cases (get s.conn_map user_id)) [
  | inl none_there ↦ rw none_there refl
  | inr (i, found) ↦ rw (found, h.is_open user_id i found) refl
]

-- The end of a connection takes its user out of the map and no other user.
pub end_forgets :
    (s : Conns) (user_id other : String)
    → IsWell s
    → get (unregister_conn user_id s).1.conn_map other
      ≡ (if other == user_id then none else get s.conn_map other)
unfolding unregister_conn close_found close_chan forget
end_forgets s user_id other h = elim (Option-cases (get s.conn_map user_id)) [
  | inl none_there ↦ rw none_there (ground (arith, none_there, eq_iff other user_id))
  | inr (i, found) ↦ rw (found, h.is_open user_id i found, get-delete s.conn_map user_id other) refl
]

-- What a delivery can count on: the receiver is connected here and its queue is not full.
unfoldable pub has_room : Option ℕ → Conns → Bool
has_room none s = false
has_room (some i) s = ltb (length (s.chans i).queue) chan_capacity

pub deliver-ok :
    (s : Conns) (receiver_id : String) (msg : PersistedMessage)
    → IsWell s
    → (deliver_local receiver_id msg s).0 ≡ ok (has_room (get s.conn_map receiver_id) s)
unfolding deliver_local look_up send_found try_send has_room
deliver-ok s receiver_id msg h = elim (Option-cases (get s.conn_map receiver_id)) [
  | inl none_there ↦ rw none_there refl
  | inr (i, found) ↦ rw (found, h.is_open receiver_id i found) (ground arith)
]

found-IsWell :
    (o : Option ℕ) (msg : PersistedMessage) (b : Bool) (s : Conns)
    → (send_found o msg s).0 ≡ ok b
    → IsWell s
    → IsWell (send_found o msg s).1 × ((send_found o msg s).1.conn_map ≡ s.conn_map)
unfolding send_found try_send
found-IsWell none msg b s e h = (h, refl)
found-IsWell (some i) msg b s e h = (
  send-IsWell i msg b s (try_send i msg s).1 (ap (λ r. (r, (try_send i msg s).1)) e) h,
  ground arith,
)

-- A delivery changes neither the map nor what holds of it.
pub deliver-IsWell :
    (s : Conns) (receiver_id : String) (msg : PersistedMessage)
    → IsWell s
    → let s' = (deliver_local receiver_id msg s).1 in IsWell s' × (s'.conn_map ≡ s.conn_map)
unfolding deliver_local
deliver-IsWell s receiver_id msg h =
    found-IsWell (look_up receiver_id s) msg (has_room (get s.conn_map receiver_id) s) s
      (deliver-ok s receiver_id msg h) h

-- In every state that the goroutines reach, ending a connection closes no channel twice, and a delivery
-- that nothing interrupts sends on no closed channel, and its answer is whether the receiver is
-- connected here with a queue that is not full.
pub no_panic :
    (s : Conns) (user_id : String) (msg : PersistedMessage)
    → Reach no_conns s
    → ((unregister_conn user_id s).0 ≡ ok tt)
      × ((deliver_local user_id msg s).0 ≡ ok (has_room (get s.conn_map user_id) s))
no_panic s user_id msg r =
    (end-ok s user_id (Reach-IsWell r), deliver-ok s user_id msg (Reach-IsWell r))
