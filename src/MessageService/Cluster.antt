-- ===== src/MessageService/Cluster.antt =====
-- The service over time: calls one after another, and failovers of Redis between them.
use tinytelegram.Base.{ℕ, ◌≤◌, ◌<◌, ◌≡◌, ◌≢◌, true, ◌⊎◌, inl, inr, String, [], arith, refl}
use tinytelegram.Proto.{ChatMessage, PersistedMessage}
use tinytelegram.MessageService.Keys.{pts_key}
use tinytelegram.MessageService.Redis.{Redis, IsSticky, next_user_pts}
use tinytelegram.MessageService.Schema.{IsConsistent, is_fresh, same_id}
use tinytelegram.MessageService.Schema.Coverage.{IsCovered, IsCovered-mono}
use tinytelegram.MessageService.Postgres.{Postgres}
use tinytelegram.MessageService.Persist.{
  World, reply, fail, unavailable, persist_message, uniqueness_violation,
}
use tinytelegram.MessageService.Persist.Storage.{
  persist-IsConsistent, persist-IsCovered, persist-stored, persist-durable, persist-keeps,
  covered-ne-violation, new_row,
}
use tinytelegram.MessageService.DbCheck.{duplicate_receiver_pts, duplicate_sender_pts}
use tinytelegram.MessageService.DbCheck.Exact.{consistent-no_duplicates}

-- The user `u` has the number `p` in the message `m`, as its receiver or as its sender.
abbrev pub Numbered : ChatMessage → PersistedMessage → String → ℕ → Type 0
Numbered msg m u p =
    ((msg.receiver_id ≡ u) × (p ≡ m.receiver_pts)) ⊎ ((msg.sender_id ≡ u) × (p ≡ m.sender_pts))

module _ (R : Redis) (P : Postgres) where
  -- One step: a call of `PersistMessage`, an INCR by the benchmark handler (handler/message.go), or
  -- a failover from one state of Redis to another that `F` allows.
  pub data Step (F : R.Conn → R.Conn → Type 0) (w w' : World R P) : Type 0 where
    persists :
        (msg_id : String) (now : ℕ) (msg : ChatMessage)
        → w' ≡ (persist_message R P msg_id now msg w).1
        → Step F w w'
    counts :
        (user_id : String)
        → w' ≡ record { conn = (next_user_pts R user_id w.conn).1; db = w.db }
        → Step F w w'
    fails_over : (c : R.Conn) → F w.conn c → w' ≡ record { conn = c; db = w.db } → Step F w w'

  pub data Reach (F : R.Conn → R.Conn → Type 0) (w : World R P) : World R P → Type 0 where
    here : Reach F w w
    next : {u v : World R P} → Reach F w u → Step F u v → Reach F w v

  -- Any other state may take over.
  abbrev pub AnyFailover : R.Conn → R.Conn → Type 0
  AnyFailover c c' = Unit

  -- The node that takes over has all that a replica had acknowledged.
  abbrev pub DurableFailover : R.Conn → R.Conn → Type 0
  DurableFailover c c' = (k : String) → R.durable c k ≤ R.durable c' k

  Step-IsConsistent :
      {F : R.Conn → R.Conn → Type 0} (w w' : World R P)
      → Step F w w'
      → IsConsistent (P.rows w.db)
      → IsConsistent (P.rows w'.db)
  Step-IsConsistent w w' (persists msg_id now msg e) h =
      rw e (persist-IsConsistent R P msg_id now msg w h)
  Step-IsConsistent w w' (counts user_id e) h = rw e h
  Step-IsConsistent w w' (fails_over c f e) h = rw e h

  -- From an empty table, whatever node takes over in a failover, the table keeps its constraints.
  pub Reach-IsConsistent :
      {F : R.Conn → R.Conn → Type 0} {w w' : World R P}
      → P.rows w.db ≡ []
      → Reach F w w'
      → IsConsistent (P.rows w'.db)
  Reach-IsConsistent empty here = rw empty tt
  Reach-IsConsistent empty (next {u} {v} r s) = Step-IsConsistent u v s (Reach-IsConsistent empty r)

  Step-durable :
      (w w' : World R P)
      → Step DurableFailover w w'
      → (k : String) → R.durable w.conn k ≤ R.durable w'.conn k
  unfolding next_user_pts
  Step-durable w w' (persists msg_id now msg e) k = rw e (persist-keeps R P msg_id now msg w k)
  Step-durable w w' (counts user_id e) k = rw e (R.incr_keeps (pts_key user_id) w.conn k)
  Step-durable w w' (fails_over c f e) k = rw e (f k)

  pub Reach-durable :
      {w w' : World R P}
      → Reach DurableFailover w w'
      → (k : String) → R.durable w.conn k ≤ R.durable w'.conn k
  Reach-durable here k = omega arith
  Reach-durable (next {u} {v} r s) k =
      let earlier = Reach-durable r k in let later = Step-durable u v s k in omega arith

  -- If failovers lose nothing that a replica had acknowledged, no stored number is ever lost.
  pub Reach-IsCovered :
      {w w' : World R P}
      → IsSticky R
      → IsCovered (R.durable w.conn) (P.rows w.db)
      → Reach DurableFailover w w'
      → IsCovered (R.durable w'.conn) (P.rows w'.db)
  Reach-IsCovered sticky h here = h
  Reach-IsCovered sticky h (next {u} {v} r (persists msg_id now msg e)) =
      rw e (persist-IsCovered R P msg_id now msg u sticky (Reach-IsCovered sticky h r))
  Reach-IsCovered sticky h (next {u} {v} r (counts user_id e)) =
      rw e
        (IsCovered-mono _ _ _ (Step-durable u _ (counts user_id refl)) (Reach-IsCovered sticky h r))
  Reach-IsCovered sticky h (next {u} {v} r (fails_over c f e)) =
      rw e (IsCovered-mono _ _ _ f (Reach-IsCovered sticky h r))

  Numbered-bounds :
      (msg_id : String) (now : ℕ) (msg : ChatMessage) (m : PersistedMessage) (w : World R P)
      (u : String) (p : ℕ)
      → IsSticky R
      → (persist_message R P msg_id now msg w).0 ≡ reply m
      → Numbered msg m u p
      → (R.counter w.conn (pts_key u) < p)
        × (p ≤ R.durable (persist_message R P msg_id now msg w).1.conn (pts_key u))
  Numbered-bounds msg_id now msg m w u p sticky answer (inl (is_receiver, number)) =
      let stored = persist-stored R P msg_id now msg w m answer in
      let kept = persist-durable R P msg_id now msg w m sticky answer in
      rw (← is_receiver, number) (stored.2, kept.0)
  Numbered-bounds msg_id now msg m w u p sticky answer (inr (is_sender, number)) =
      let stored = persist-stored R P msg_id now msg w m answer in
      let kept = persist-durable R P msg_id now msg w m sticky answer in
      rw (← is_sender, number) (stored.3, kept.1)

  -- Over one connection, of two acknowledged messages the later one has the higher number for every
  -- user they share, whatever calls, failures and durable failovers lie between.
  pub pts_order :
      (id₁ id₂ : String) (t₁ t₂ : ℕ) (msg₁ msg₂ : ChatMessage) (m₁ m₂ : PersistedMessage)
      (w w' : World R P) (u : String) (p q : ℕ)
      → IsSticky R
      → (persist_message R P id₁ t₁ msg₁ w).0 ≡ reply m₁
      → Reach DurableFailover (persist_message R P id₁ t₁ msg₁ w).1 w'
      → (persist_message R P id₂ t₂ msg₂ w').0 ≡ reply m₂
      → Numbered msg₁ m₁ u p
      → Numbered msg₂ m₂ u q
      → p < q
  pts_order id₁ id₂ t₁ t₂ msg₁ msg₂ m₁ m₂ w w' u p q sticky first between second np nq =
      let earlier = Numbered-bounds id₁ t₁ msg₁ m₁ w u p sticky first np in
      let later = Numbered-bounds id₂ t₂ msg₂ m₂ w' u q sticky second nq in
      let kept = Reach-durable between (pts_key u) in
      let below = R.durable_le w'.conn (pts_key u) in omega arith

  -- From an empty table, whatever node takes over in a failover, the duplicate queries of dbcheck
  -- report nothing.
  pub check_passes :
      {F : R.Conn → R.Conn → Type 0} {w w' : World R P}
      → P.rows w.db ≡ []
      → Reach F w w'
      → (duplicate_receiver_pts (P.rows w'.db) ≡ []) × (duplicate_sender_pts (P.rows w'.db) ≡ [])
  check_passes {w' = w'} empty r =
      consistent-no_duplicates (P.rows w'.db) (Reach-IsConsistent empty r)

  -- Over one connection, from an empty table, if failovers lose nothing that a replica had
  -- acknowledged, a call with a new id is never answered by a uniqueness violation.
  pub no_violation :
      (msg_id : String) (now : ℕ) (msg : ChatMessage) (w w' : World R P)
      → IsSticky R
      → P.rows w.db ≡ []
      → Reach DurableFailover w w'
      → is_fresh same_id (new_row R P msg_id now msg 0 0 w'.db) (P.rows w'.db) ≡ true
      → (persist_message R P msg_id now msg w').0 ≢ fail unavailable uniqueness_violation
  no_violation msg_id now msg w w' sticky empty r new_id =
      covered-ne-violation R P msg_id now msg w' (Reach-IsCovered sticky (rw empty tt) r) new_id
