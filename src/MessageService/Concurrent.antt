-- ===== src/MessageService/Concurrent.antt =====
-- `PersistMessage` (message-service/grpc/server.go) while other calls of it are under way: each of the
-- four round trips of a call to Redis and Postgres is a step of its own.
pub mod Alone
pub mod Numbers
pub mod Admitted
pub mod Overtaken
mod Tests
use Prim.Native.String.{◌++◌}
use tinytelegram.Base.{ℕ, ◌≡◌, String, ltb, eqb, if◌then◌else◌}
use tinytelegram.Base.Exec.{Result, ok, err}
use tinytelegram.Proto.{ChatMessage, PersistedMessage}
use tinytelegram.MessageService.Keys.{pts_key}
use tinytelegram.MessageService.Redis.{Redis, err_pts_not_durable, next_user_pts}
use tinytelegram.MessageService.Postgres.{Postgres}
use tinytelegram.MessageService.Persist.{
  World, Reply, fail, unavailable, columns, persisted, after_insert, pts_wait_timeout_ms,
}

-- How far a call has come, with the numbers that it has.
pub data Phase : Type 0 where
  started : Phase
  got_receiver : ℕ → Phase
  got_both : ℕ → ℕ → Phase
  granted : ℕ → ℕ → Phase
  finished : Reply PersistedMessage → Phase

-- A call, with its new UUID and the time at its end.
pub record Request : Type 0 where
  pub msg_id : String
  pub now : ℕ
  pub msg : ChatMessage

abbrev pub not_durable : String → Phase
not_durable e = finished (fail unavailable ("PTS not durable: " ++ e))

unfoldable pub on_receiver : Result ℕ → Phase
on_receiver (ok p) = got_receiver p
on_receiver (err e) = not_durable ("incr receiver: " ++ e)

unfoldable pub on_sender : ℕ → Result ℕ → Phase
on_sender p (ok q) = got_both p q
on_sender p (err e) = not_durable ("incr sender: " ++ e)

unfoldable pub on_wait : ℕ → ℕ → Result ℕ → Phase
on_wait p q (ok acked) = if ltb acked 1 then not_durable err_pts_not_durable else granted p q
on_wait p q (err e) = not_durable ("wait: " ++ e)

module _ (R : Redis) (P : Postgres) where
  open R use {incr, wait}

  -- The next round trip of a call; a call that is finished takes no step.
  unfoldable pub advance : Request → Phase → World R P → Phase × World R P
  unfolding on_receiver on_sender on_wait
  advance r started w =
      let (v, c) = incr (pts_key r.msg.receiver_id) w.conn in (on_receiver v, record w { conn = c })
  advance r (got_receiver p) w =
      let (v, c) = incr (pts_key r.msg.sender_id) w.conn in (on_sender p v, record w { conn = c })
  advance r (got_both p q) w =
      let (acked, c) = wait 1 pts_wait_timeout_ms w.conn in
      (on_wait p q acked, record w { conn = c })
  advance r (granted p q) w =
      let (inserted, d) = P.insert (columns r.msg_id r.msg p q) w.db in
      (finished (after_insert (persisted r.msg_id r.now r.msg p q) inserted), record w { db = d })
  advance r (finished a) w = (finished a, w)

  pub record System : Type 0 where
    pub world : World R P
    pub phase : ℕ → Phase

  abbrev pub set : (ℕ → Phase) → ℕ → Phase → ℕ → Phase
  set phase i x j = if eqb j i then x else phase j

  -- Call `i` takes its next step.
  unfoldable pub pick : (ℕ → Request) → ℕ → System → System
  unfolding advance
  pick request i s =
      let (x, w) = advance (request i) (s.phase i) s.world in
      record { world = w; phase = set s.phase i x }

  -- Any call takes its next step, or the benchmark handler counts up a user.
  pub data Step (request : ℕ → Request) (s s' : System) : Type 0 where
    picks : (i : ℕ) → s' ≡ pick request i s → Step request s s'
    counts :
        (user_id : String)
        → s'
          ≡ record s { world = record s.world { conn = (next_user_pts R user_id s.world.conn).1 } }
        → Step request s s'

  pub data Reach (request : ℕ → Request) (s : System) : System → Type 0 where
    here : Reach request s s
    next : {t u : System} → Reach request s t → Step request t u → Reach request s u

  abbrev pub start : World R P → System
  start w = record { world = w; phase = λ i. started }
