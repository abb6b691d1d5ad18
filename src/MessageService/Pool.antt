-- ===== src/MessageService/Pool.antt =====
-- What the pool of connections may do to `AllocatePTSWithWait` (message-service/store/redis.go).
use tinytelegram.Base.{ℕ, ◌<◌, ◌≡◌, [], refl, String, some, inl, inr, arith}
use tinytelegram.Base.Exec.{ok, err}
use tinytelegram.Proto.{ChatMessage, PersistedMessage}
use tinytelegram.MessageService.Redis.{Redis, allocate_pts_with_wait}
use tinytelegram.MessageService.Keys.{pts_key}
use tinytelegram.MessageService.Schema.{admits, is_fresh}
use tinytelegram.MessageService.Postgres.{Postgres}
use tinytelegram.MessageService.Persist.{World, reply, persisted, persist_message}
use tinytelegram.MessageService.Cluster.{Reach, here, next, fails_over, DurableFailover, Numbered}
use tinytelegram.MessageService.Sim.{
  Memory, incr_count, incr_count_ok, count_grows, count_read, postgres,
}

-- A server whose replica lags, behind a pool that sends WAIT over a connection which never wrote.
abbrev lagging : Redis
lagging = record {
  Conn = Memory;
  counter = λ c. c.counts;
  durable = λ c j. 0;
  logged = λ c j. 0;
  incr = incr_count;
  wait = λ n t c. (ok 1, c);
  get_int = λ k c. (ok (some (c.counts k)), c);
  get = λ k c. (err "redis: nil", c);
  durable_le = λ c j. omega arith;
  incr_grows = count_grows;
  incr_keeps = λ k c j. omega arith;
  incr_ok = incr_count_ok;
  wait_grows = λ n t c j. omega arith;
  wait_keeps = λ n t c j. omega arith;
  wait_acked = λ n t c e le j. omega arith;
  get_int_ok = count_read;
}

-- alice writes to bob.
abbrev hello : ChatMessage
hello = record { sender_id = "alice"; receiver_id = "bob"; content = "hello"; client_timestamp = 1 }

-- bob writes to alice.
abbrev answer : ChatMessage
answer = record { sender_id = "bob"; receiver_id = "alice"; content = "hi"; client_timestamp = 2 }

abbrev empty : Memory
empty = record { counts = λ k. 0; replicas = 1 }

abbrev start : World lagging postgres
start = record { conn = empty; db = [] }

abbrev after_hello : World lagging postgres
after_hello = (persist_message lagging postgres "m1" 10 hello start).1

-- The replica that takes over has none of the numbers.
abbrev failed_over : World lagging postgres
failed_over = record { conn = empty; db = after_hello.db }

failover : Reach lagging postgres (DurableFailover lagging postgres) after_hello failed_over
failover = next here (fails_over empty (λ k. omega arith) refl)

hello_reply :
    (persist_message lagging postgres "m1" 10 hello start).0 ≡ reply (persisted "m1" 10 hello 1 1)
unfolding persist_message allocate_pts_with_wait admits is_fresh pts_key
hello_reply = refl

answer_reply :
    (persist_message lagging postgres "m2" 20 answer failed_over).0
    ≡ reply (persisted "m2" 20 answer 1 1)
unfolding persist_message allocate_pts_with_wait admits is_fresh pts_key
answer_reply = refl

-- The order of the numbers of a user, for any pool of connections to Redis.
abbrev pub OrderedOverPools : Type 1
OrderedOverPools =
    (R : Redis) (P : Postgres) (id₁ id₂ : String) (t₁ t₂ : ℕ) (msg₁ msg₂ : ChatMessage)
    (m₁ m₂ : PersistedMessage) (w w' : World R P) (u : String) (p q : ℕ)
    → (persist_message R P id₁ t₁ msg₁ w).0 ≡ reply m₁
    → Reach R P (DurableFailover R P) (persist_message R P id₁ t₁ msg₁ w).1 w'
    → (persist_message R P id₂ t₂ msg₂ w').0 ≡ reply m₂
    → Numbered msg₁ m₁ u p
    → Numbered msg₂ m₂ u q
    → p < q

-- Over any pool of connections, the order of numbers does not hold across durable failovers: two
-- acknowledged messages may give a user the same number.
pub not-OrderedOverPools : ¬ OrderedOverPools
not-OrderedOverPools ordered = absurd (
    omega (
      arith,
      ordered lagging postgres "m1" "m2" 10 20 hello answer (persisted "m1" 10 hello 1 1)
          (persisted "m2" 20 answer 1 1) start failed_over "bob" 1 1 hello_reply failover
          answer_reply (inl (refl, refl)) (inr (refl, refl)),
    ))
