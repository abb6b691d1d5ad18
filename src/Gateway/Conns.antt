-- ===== src/Gateway/Conns.antt =====
-- gateway/grpc/server.go: the map from users to the channels of their connections, and the two
-- operations on a channel that it shares with gateway/handler/websocket.go.
pub mod Step
pub mod Handover
use tinytelegram.Base.{
  ℕ, suc, ◌≡◌, String, Bool, true, false, Option, none, some, List, [], ◌∷◌, ◌++◌, length, eqb, ltb,
  if◌then◌else◌,
}
use tinytelegram.Base.Dict.{Dict, get, put, delete}
use tinytelegram.Base.Exec.{ok, err, Exec, continue}
use tinytelegram.Proto.{PersistedMessage, DeliveryAck}

-- A Go channel with a buffer.
pub record Chan : Type 0 where
  pub queue : List PersistedMessage
  pub is_closed : Bool

-- `connMap`, and the channels that were made so far: a channel is its number in the order of making.
pub record Conns : Type 0 where
  pub next : ℕ
  pub chans : ℕ → Chan
  pub conn_map : Dict ℕ

abbrev pub new_chan : Chan
new_chan = record { queue = []; is_closed = false }

abbrev pub no_conns : Conns
no_conns = record { next = 0; chans = λ _. new_chan; conn_map = [] }

unfoldable pub set : (ℕ → Chan) → ℕ → Chan → ℕ → Chan
set chans i ch j = if eqb j i then ch else chans j

abbrev pub put_chan : ℕ → Chan → Conns → Conns
put_chan i ch s = record { next = s.next; chans = set s.chans i ch; conn_map = s.conn_map }

-- make(chan *pb.PersistedMessage, 64)
abbrev pub chan_capacity : ℕ
chan_capacity = 64

unfoldable pub make_chan : Conns → ℕ × Conns
make_chan s = (
  s.next,
  record { next = suc s.next; chans = set s.chans s.next new_chan; conn_map = s.conn_map },
)

-- close(ch): a panic is an error.
unfoldable pub close_chan : ℕ → Exec Conns (Unit {0})
close_chan i s =
    if (s.chans i).is_closed
    then (err "close of closed channel", s)
    else (ok tt, put_chan i (record { queue = (s.chans i).queue; is_closed = true }) s)

unfoldable pub register_conn : String → ℕ → Conns → Conns
register_conn user_id i s = record {
  next = s.next;
  chans = s.chans;
  conn_map = put s.conn_map user_id i;
}

unfoldable pub forget : String → Conns → Conns
forget user_id s = record { next = s.next; chans = s.chans; conn_map = delete s.conn_map user_id }

unfoldable pub close_found : String → Option ℕ → Exec Conns (Unit {0})
unfolding close_chan
close_found user_id none s = (ok tt, s)
close_found user_id (some i) s = continue (close_chan i s) λ _ s'. (ok tt, forget user_id s')

unfoldable pub unregister_conn : String → Exec Conns (Unit {0})
unregister_conn user_id s = close_found user_id (get s.conn_map user_id) s

unfoldable pub conn_count : Conns → ℕ
conn_count s = length s.conn_map

-- The part of `DeliverLocal` under the lock.
unfoldable pub look_up : String → Conns → Option ℕ
look_up receiver_id s = get s.conn_map receiver_id

-- The select with a default: a send that never waits.
unfoldable pub try_send : ℕ → PersistedMessage → Exec Conns Bool
try_send i msg s =
    if (s.chans i).is_closed
    then (err "send on closed channel", s)
    else if ltb (length (s.chans i).queue) chan_capacity
    then (
      ok true,
      put_chan i (record { queue = (s.chans i).queue ++ (msg ∷ []); is_closed = false }) s,
    )
    else (ok false, s)

unfoldable pub send_found : Option ℕ → PersistedMessage → Exec Conns Bool
send_found none msg s = (ok false, s)
send_found (some i) msg s = try_send i msg s

-- A call that no other goroutine interrupts.
unfoldable pub deliver_local : String → PersistedMessage → Exec Conns Bool
unfolding look_up
deliver_local receiver_id msg s = send_found (look_up receiver_id s) msg s

-- The handler of the peers' calls.
unfoldable pub deliver_message : PersistedMessage → Exec Conns DeliveryAck
deliver_message msg s = elim msg.message [
  | none ↦ (ok (record { delivered = false }), s)
  | some m ↦
      continue (deliver_local m.receiver_id msg s) λ b s'. (ok (record { delivered = b }), s')
]

-- One turn of `for msg := range msgCh`: nothing comes while the channel is empty.
unfoldable pub take_first : ℕ → List PersistedMessage → Conns → Option PersistedMessage × Conns
take_first i [] s = (none, s)
take_first i (m ∷ rest) s =
    (some m, put_chan i (record { queue = rest; is_closed = (s.chans i).is_closed }) s)

unfoldable pub receive : ℕ → Conns → Option PersistedMessage × Conns
unfolding take_first
receive i s = take_first i (s.chans i).queue s

-- What `WebSocketHandler` does here when a user connects.
unfoldable pub open_conn : String → Conns → Conns
unfolding make_chan
open_conn user_id s = let (i, s') = make_chan s in register_conn user_id i s'
