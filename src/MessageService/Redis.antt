-- ===== src/MessageService/Redis.antt =====
-- message-service/store/redis.go: the sequence numbers of the users.
pub mod Allocation
use Prim.Native.String.{◌++◌}
use tinytelegram.Base.{ℕ, ◌≤◌, ◌<◌, ◌≡◌, String, Option, none, some, ltb, if◌then◌else◌}
use tinytelegram.Base.Exec.{ok, err, Exec, pure, rename, continue, ◌>>=◌}
use tinytelegram.MessageService.Keys.{pts_key, presence_key}

-- A missing key reads as 0.
abbrev pub or_zero : Option ℕ → ℕ
or_zero none = 0
or_zero (some v) = v

-- The Redis server behind a pool of connections, as the documentation of its commands describes it.
-- A counter may move further than a call says, since other clients use the server too. `durable` is
-- the value that survives a failover. WAIT returns how many replicas have acknowledged the writes of
-- the connection that it is sent on: `logged` is the value that a counter had when that connection,
-- which is the one that the pool hands out next, last wrote.
pub record Redis : Type 1 where
  pub Conn : Type 0
  pub counter : Conn → String → ℕ
  pub durable : Conn → String → ℕ
  pub logged : Conn → String → ℕ
  pub incr : String → Exec Conn ℕ
  pub wait : ℕ → ℕ → Exec Conn ℕ
  pub get_int : String → Exec Conn (Option ℕ)
  -- A missing key is an error (`redis.Nil`).
  pub get : String → Exec Conn String
  pub durable_le : (c : Conn) (j : String) → durable c j ≤ counter c j
  pub incr_grows : (k : String) (c : Conn) (j : String) → counter c j ≤ counter (incr k c).1 j
  pub incr_keeps : (k : String) (c : Conn) (j : String) → durable c j ≤ durable (incr k c).1 j
  pub incr_ok :
      (k : String) (c : Conn) {v : ℕ}
      → (incr k c).0 ≡ ok v
      → (counter c k < v) × (v ≤ counter (incr k c).1 k)
  pub wait_grows : (n t : ℕ) (c : Conn) (j : String) → counter c j ≤ counter (wait n t c).1 j
  pub wait_keeps : (n t : ℕ) (c : Conn) (j : String) → durable c j ≤ durable (wait n t c).1 j
  pub wait_acked :
      (n t : ℕ) (c : Conn) {acked : ℕ}
      → (wait n t c).0 ≡ ok acked
      → 1 ≤ acked
      → (j : String) → logged c j ≤ durable (wait n t c).1 j
  pub get_int_ok :
      (k : String) (c : Conn) {o : Option ℕ} → (get_int k c).0 ≡ ok o → or_zero o ≡ counter c k

-- The pool hands the connection that wrote last to the next command too, as one that is used by one
-- call at a time does. The code does not ask for this.
pub record IsSticky (R : Redis) : Type 0 where
  pub incr_logged :
      (k : String) (c : R.Conn) {v : ℕ} → (R.incr k c).0 ≡ ok v → v ≤ R.logged (R.incr k c).1 k
  pub incr_keeps_log :
      (k : String) (c : R.Conn) (j : String) → R.logged c j ≤ R.logged (R.incr k c).1 j

abbrev pub err_pts_not_durable : String
err_pts_not_durable = "PTS not durable: Redis WAIT did not receive replica ack"

module _ (R : Redis) where
  open R use {Conn, incr, wait, get_int, get}

  unfoldable pub next_user_pts : String → Exec Conn ℕ
  next_user_pts user_id = incr (pts_key user_id)

  unfoldable pub get_user_pts : String → Exec Conn ℕ
  get_user_pts user_id = get_int (pts_key user_id) >>= λ val. pure (or_zero val)

  unfoldable pub get_user_gateway : String → Exec Conn String
  get_user_gateway user_id = get (presence_key user_id)

  -- Both counters, then one WAIT for both writes; no number is handed out unless a replica has them.
  unfoldable pub allocate_pts_with_wait : String → String → ℕ → Exec Conn (ℕ × ℕ)
  allocate_pts_with_wait receiver_id sender_id timeout_ms c =
      continue (rename (λ e. "incr receiver: " ++ e) (incr (pts_key receiver_id) c))
        λ receiver_pts c₁.
          continue (rename (λ e. "incr sender: " ++ e) (incr (pts_key sender_id) c₁))
            λ sender_pts c₂.
              continue (rename (λ e. "wait: " ++ e) (wait 1 timeout_ms c₂)) λ acked c₃.
                (if ltb acked 1 then err err_pts_not_durable else ok (receiver_pts, sender_pts), c₃)
