-- ===== src/MessageService/Persist.antt =====
-- `PersistMessage` (message-service/grpc/server.go).
pub mod Storage
use Prim.Native.String.{◌++◌}
use tinytelegram.Base.{ℕ, String, some, if◌then◌else◌}
use tinytelegram.Base.Exec.{Result, ok, err}
use tinytelegram.Proto.{ChatMessage, PersistedMessage}
use tinytelegram.MessageService.Redis.{Redis, allocate_pts_with_wait}
use tinytelegram.MessageService.Postgres.{Postgres, Columns, is_unique_violation}

-- The gRPC status codes in use.
pub data Code : Type 0 where
  unavailable internal unknown : Code

pub data Reply (A : Type 0) : Type 0 where
  reply : A → Reply A
  fail : Code → String → Reply A

abbrev pub pts_wait_timeout_ms : ℕ
pts_wait_timeout_ms = 100

abbrev pub uniqueness_violation : String
uniqueness_violation = "PTS uniqueness violation, retry"

-- The values of the INSERT.
abbrev pub columns : String → ChatMessage → ℕ → ℕ → Columns
columns msg_id msg receiver_pts sender_pts = record {
  id = msg_id;
  sender_id = msg.sender_id;
  receiver_id = msg.receiver_id;
  content = msg.content;
  sender_pts = sender_pts;
  receiver_pts = receiver_pts;
}

abbrev pub persisted : String → ℕ → ChatMessage → ℕ → ℕ → PersistedMessage
persisted msg_id now msg receiver_pts sender_pts = record {
  id = msg_id;
  message = some msg;
  receiver_pts = receiver_pts;
  sender_pts = sender_pts;
  server_timestamp = now;
}

-- The reply for the outcome of the INSERT.
unfoldable pub after_insert : PersistedMessage → Result (Unit {0}) → Reply PersistedMessage
after_insert m (ok _) = reply m
after_insert m (err e) =
    if is_unique_violation e
    then fail unavailable uniqueness_violation
    else fail internal ("insert message: " ++ e)

module _ (R : Redis) (P : Postgres) where
  -- The two stores of the service.
  pub record World : Type 0 where
    pub conn : R.Conn
    pub db : P.Db

  -- The part behind the allocation: without both numbers nothing is inserted.
  unfoldable pub after_allocate :
      String → ℕ → ChatMessage → Result (ℕ × ℕ) → P.Db → Reply PersistedMessage × P.Db
  unfolding after_insert
  after_allocate msg_id now msg (ok (receiver_pts, sender_pts)) db =
      let (inserted, db') = P.insert (columns msg_id msg receiver_pts sender_pts) db in
      (after_insert (persisted msg_id now msg receiver_pts sender_pts) inserted, db')
  after_allocate msg_id now msg (err e) db = (fail unavailable ("PTS not durable: " ++ e), db)

  -- `msg_id` is the new UUID and `now` the time at the end of the call.
  unfoldable pub persist_message : String → ℕ → ChatMessage → World → Reply PersistedMessage × World
  unfolding after_allocate
  persist_message msg_id now msg w =
      let (allocated, conn') =
        allocate_pts_with_wait R msg.receiver_id msg.sender_id pts_wait_timeout_ms w.conn in
      let (answer, db') = after_allocate msg_id now msg allocated w.db in
      (answer, record { conn = conn'; db = db' })
