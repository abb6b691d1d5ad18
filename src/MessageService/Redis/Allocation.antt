-- ===== src/MessageService/Redis/Allocation.antt =====
-- What `AllocatePTSWithWait` hands out, and what it leaves behind.
use tinytelegram.Base.{ℕ, ◌≤◌, ◌<◌, ◌≡◌, String, arith}
use tinytelegram.Base.Exec.{Result, ok, err}
use tinytelegram.MessageService.Keys.{pts_key}
use tinytelegram.MessageService.Redis.{Redis, IsSticky, allocate_pts_with_wait}

abbrev acks : Result ℕ → ℕ
acks (ok n) = n
acks (err e) = 0

module _ (R : Redis) (receiver_id sender_id : String) (timeout_ms : ℕ) (c : R.Conn) where
  open R use {Conn, counter, durable, incr, wait}

  -- The connection after each of the three commands.
  abbrev after_receiver : Conn
  after_receiver = (incr (pts_key receiver_id) c).1

  abbrev after_sender : Conn
  after_sender = (incr (pts_key sender_id) after_receiver).1

  abbrev after_wait : Conn
  after_wait = (wait 1 timeout_ms after_sender).1

  allocate_run :
      (p q : ℕ)
      → (allocate_pts_with_wait R receiver_id sender_id timeout_ms c).0 ≡ ok (p, q)
      → ((incr (pts_key receiver_id) c).0 ≡ ok p)
        × ((incr (pts_key sender_id) after_receiver).0 ≡ ok q)
        × ((wait 1 timeout_ms after_sender).0 ≡ ok (acks (wait 1 timeout_ms after_sender).0))
        × (1 ≤ acks (wait 1 timeout_ms after_sender).0)
        × ((allocate_pts_with_wait R receiver_id sender_id timeout_ms c).1 ≡ after_wait)
  unfolding allocate_pts_with_wait
  allocate_run p q h = ground arith

  -- The numbers are above both users' counters.
  pub allocate_above :
      (p q : ℕ)
      → (allocate_pts_with_wait R receiver_id sender_id timeout_ms c).0 ≡ ok (p, q)
      → (counter c (pts_key receiver_id) < p) × (counter c (pts_key sender_id) < q)
  allocate_above p q h =
      let (got_p, got_q, _, _, _) = allocate_run p q h in
      let p_ok = R.incr_ok (pts_key receiver_id) c got_p in
      let q_ok = R.incr_ok (pts_key sender_id) after_receiver got_q in
      let grown = R.incr_grows (pts_key receiver_id) c (pts_key sender_id) in
      (omega arith, omega arith)

  -- Over one connection they survive a failover.
  pub allocate_durable :
      (p q : ℕ)
      → IsSticky R
      → (allocate_pts_with_wait R receiver_id sender_id timeout_ms c).0 ≡ ok (p, q)
      → let c' = (allocate_pts_with_wait R receiver_id sender_id timeout_ms c).1 in
        (p ≤ durable c' (pts_key receiver_id)) × (q ≤ durable c' (pts_key sender_id))
  allocate_durable p q sticky h =
      let (got_p, got_q, got_acks, enough, end) = allocate_run p q h in
      let kept = R.wait_acked 1 timeout_ms after_sender got_acks enough in
      let p_logged = sticky.incr_logged (pts_key receiver_id) c got_p in
      let p_kept = sticky.incr_keeps_log (pts_key sender_id) after_receiver (pts_key receiver_id) in
      let q_logged = sticky.incr_logged (pts_key sender_id) after_receiver got_q in
      rw end (
        omega (arith, p_logged, p_kept, kept (pts_key receiver_id)),
        omega (arith, q_logged, kept (pts_key sender_id)),
      )

  -- A call never lowers a counter or a durable value, whether it succeeds or fails.
  pub allocate_grows :
      (j : String)
      → let c' = (allocate_pts_with_wait R receiver_id sender_id timeout_ms c).1 in
        (counter c j ≤ counter c' j) × (durable c j ≤ durable c' j)
  unfolding allocate_pts_with_wait
  allocate_grows j = ground (
    arith,
    R.incr_grows (pts_key receiver_id) c j,
    R.incr_grows (pts_key sender_id) after_receiver j,
    R.wait_grows 1 timeout_ms after_sender j,
    R.incr_keeps (pts_key receiver_id) c j,
    R.incr_keeps (pts_key sender_id) after_receiver j,
    R.wait_keeps 1 timeout_ms after_sender j,
  )
