-- ===== src/Gateway/Conns/Handover.antt =====
-- Two connections of one user: the map keeps one channel for a user, and the end of a connection
-- closes the channel that is there, whichever connection it belongs to.
use tinytelegram.Base.{suc, ℕ, ◌≡◌, true, false, some, String, arith, eq_refl}
use tinytelegram.Base.Dict.{put, get-put, get-delete}
use tinytelegram.Base.Exec.{ok, err}
use tinytelegram.Proto.{PersistedMessage}
use tinytelegram.Gateway.Conns.{
  Conns, set, make_chan, close_chan, register_conn, forget, close_found, unregister_conn, look_up,
  try_send, send_found, deliver_local, open_conn,
}

module _ (user_id : String) (msg : PersistedMessage) (s : Conns) where
  -- When a user connects twice and the first of the connections ends, the channel of the second one
  -- is closed and deliveries no longer find it, although that connection has not ended.
  pub second_conn_closed :
      let reopened = open_conn user_id (open_conn user_id s) in
      let ended = unregister_conn user_id reopened in
      (ended.0 ≡ ok tt)
      × ((ended.1.chans (open_conn user_id s).next).is_closed ≡ true)
      × ((deliver_local user_id msg ended.1).0 ≡ ok false)
  unfolding open_conn make_chan register_conn unregister_conn close_found close_chan forget set
      deliver_local look_up send_found
  second_conn_closed =
      let first = put s.conn_map user_id s.next in
      let found = get-put first user_id (suc s.next) user_id in
      let gone = get-delete (put first user_id (suc s.next)) user_id user_id in
      rw (found, eq_refl user_id) (ground (arith, gone, eq_refl user_id))

  -- When the connection of the receiver ends between the two halves of a delivery, the second half
  -- sends on a closed channel.
  pub late_send_panics :
      (i : ℕ)
      → look_up user_id s ≡ some i
      → (s.chans i).is_closed ≡ false
      → (try_send i msg (unregister_conn user_id s).1).0 ≡ err "send on closed channel"
  unfolding look_up unregister_conn close_found close_chan forget set try_send
  late_send_panics i found is_open = rw (found, is_open) (ground arith)
