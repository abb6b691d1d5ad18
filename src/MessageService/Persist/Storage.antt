-- ===== src/MessageService/Persist/Storage.antt =====
-- What a call of `PersistMessage` leaves in the two stores.
use Prim.Native.String.{◌++◌}
use mathlib.Core.Bool.{false≢true}
use text.Mathlib.TextPositions.{starts_with-append}
use tinytelegram.Base.{ℕ, ◌≤◌, ◌<◌, ◌≡◌, ◌≢◌, refl, ◌∙◌, String, true, false, ◌∷◌, arith, inl, inr}
use tinytelegram.Base.Exec.{ok, Result-cases}
use tinytelegram.Proto.{ChatMessage, PersistedMessage}
use tinytelegram.MessageService.Keys.{pts_key}
use tinytelegram.MessageService.Redis.{Redis, IsSticky, allocate_pts_with_wait}
use tinytelegram.MessageService.Redis.Allocation.{allocate_above, allocate_durable, allocate_grows}
use tinytelegram.MessageService.Schema.{Row, IsConsistent, is_fresh, same_id, admits}
use tinytelegram.MessageService.Schema.Coverage.{
  IsCovered, IsCovered-mono, covered-admits, fresh_id-eq,
}
use tinytelegram.MessageService.Postgres.{Postgres, row_of, is_unique_violation}
use tinytelegram.MessageService.Persist.{
  reply, fail, unavailable, World, columns, persisted, after_allocate, persist_message,
  pts_wait_timeout_ms, uniqueness_violation,
}

-- The two texts that come with `Unavailable` differ.
not_durable-ne-violation : (u : String) → "PTS not durable: " ++ u ≢ uniqueness_violation
not_durable-ne-violation u h =
    let start = starts_with-append "PTS not durable: " u in false≢true (rw h at start)

module _ (R : Redis) (P : Postgres) (msg_id : String) (now : ℕ) (msg : ChatMessage) where
  open P use {Db, rows, clock, insert}
  open R use {counter, durable}

  -- The row that the INSERT would store.
  abbrev pub new_row : ℕ → ℕ → Db → Row
  new_row p q db = row_of (columns msg_id msg p q) (clock db)

  store-IsConsistent :
      (p q : ℕ) (db : Db)
      → IsConsistent (rows db)
      → IsConsistent (rows (after_allocate R P msg_id now msg (ok (p, q)) db).1)
  unfolding after_allocate
  store-IsConsistent p q db h = elim (P.insert_rows (columns msg_id msg p q) db) [
    | inl (same, _) ↦ rw same h
    | inr (more, fits) ↦ rw more (fits, h)
  ]

  -- Whatever numbers Redis hands out, a call keeps the primary key and both uniqueness constraints.
  pub persist-IsConsistent :
      (w : World R P)
      → IsConsistent (rows w.db)
      → IsConsistent (rows (persist_message R P msg_id now msg w).1.db)
  unfolding persist_message
  persist-IsConsistent w h =
      elim (Result-cases
        (allocate_pts_with_wait R msg.receiver_id msg.sender_id pts_wait_timeout_ms w.conn).0) [
          | inl ((p, q), e) ↦ rw e (store-IsConsistent p q w.db h)
          | inr (t, e) ↦ rw (e, after_allocate) h
        ]

  pub store-stored :
      (p q : ℕ) (db : Db) (m : PersistedMessage)
      → (after_allocate R P msg_id now msg (ok (p, q)) db).0 ≡ reply m
      → (rows (after_allocate R P msg_id now msg (ok (p, q)) db).1 ≡ new_row p q db ∷ rows db)
        × (m ≡ persisted msg_id now msg p q)
  unfolding after_allocate
  store-stored p q db m h = elim (P.insert_rows (columns msg_id msg p q) db) [
    | inl (same, refused) ↦ absurd (elim (Result-cases (insert (columns msg_id msg p q) db).0) [
      | inl (tt, e) ↦ refused e
      | inr (t, e) ↦ ground arith
    ])
    | inr (more, fits) ↦ (more, ground arith)
  ]

  pub store-admitted :
      (p q : ℕ) (db : Db) (m : PersistedMessage)
      → (after_allocate R P msg_id now msg (ok (p, q)) db).0 ≡ reply m
      → admits (rows db) (new_row p q db) ≡ true
  unfolding after_allocate
  store-admitted p q db m h = elim (P.insert_rows (columns msg_id msg p q) db) [
    | inl (same, refused) ↦ absurd (elim (Result-cases (insert (columns msg_id msg p q) db).0) [
      | inl (tt, e) ↦ refused e
      | inr (t, e) ↦ ground arith
    ])
    | inr (more, fits) ↦ fits
  ]

  -- A message that PersistMessage acknowledges is stored with the numbers of the reply, and both
  -- numbers are above the counters of their users before the call.
  pub persist-stored :
      (w : World R P) (m : PersistedMessage)
      → (persist_message R P msg_id now msg w).0 ≡ reply m
      → let w' = (persist_message R P msg_id now msg w).1 in
        (rows w'.db ≡ new_row m.receiver_pts m.sender_pts w.db ∷ rows w.db)
        × (m ≡ persisted msg_id now msg m.receiver_pts m.sender_pts)
        × (counter w.conn (pts_key msg.receiver_id) < m.receiver_pts)
        × (counter w.conn (pts_key msg.sender_id) < m.sender_pts)
  unfolding persist_message
  persist-stored w m h =
      elim (Result-cases
        (allocate_pts_with_wait R msg.receiver_id msg.sender_id pts_wait_timeout_ms w.conn).0) [
          | inl ((p, q), e) ↦
              let (kept, shape) = store-stored p q w.db m (rw e at h) in
              let above =
                allocate_above R msg.receiver_id msg.sender_id pts_wait_timeout_ms w.conn p q e in
              rw (e, shape) (kept, refl, above.0, above.1)
          | inr (t, e) ↦ absurd (ground arith)
        ]

  -- Over one connection to Redis, both numbers of a message that PersistMessage acknowledges are kept by
  -- a failover after the call.
  pub persist-durable :
      (w : World R P) (m : PersistedMessage)
      → IsSticky R
      → (persist_message R P msg_id now msg w).0 ≡ reply m
      → let w' = (persist_message R P msg_id now msg w).1 in
        (m.receiver_pts ≤ durable w'.conn (pts_key msg.receiver_id))
        × (m.sender_pts ≤ durable w'.conn (pts_key msg.sender_id))
  unfolding persist_message
  persist-durable w m sticky h =
      elim (Result-cases
        (allocate_pts_with_wait R msg.receiver_id msg.sender_id pts_wait_timeout_ms w.conn).0) [
          | inl ((p, q), e) ↦
              let (kept, shape) = store-stored p q w.db m (rw e at h) in
              rw shape (
                allocate_durable R msg.receiver_id msg.sender_id pts_wait_timeout_ms w.conn p q
                  sticky e)
          | inr (t, e) ↦ absurd (ground arith)
        ]

  store-refused :
      (p q : ℕ) (db : Db) (t : String)
      → (after_allocate R P msg_id now msg (ok (p, q)) db).0 ≡ fail unavailable t
      → (admits (rows db) (new_row p q db) ≡ false)
        × (rows (after_allocate R P msg_id now msg (ok (p, q)) db).1 ≡ rows db)
  unfolding after_allocate
  store-refused p q db t h = elim (Result-cases (insert (columns msg_id msg p q) db).0) [
    | inl (tt, e) ↦ absurd (ground arith)
    | inr (u, e) ↦
        let violated : is_unique_violation u ≡ true = ground arith in
        let full = P.insert_violation (columns msg_id msg p q) db e violated in
        (full, ground (arith, P.insert_rows (columns msg_id msg p q) db))
  ]

  -- A reply `Unavailable`, which asks the client to try again, has stored nothing.
  pub unavailable_stores_nothing :
      (w : World R P) (t : String)
      → (persist_message R P msg_id now msg w).0 ≡ fail unavailable t
      → rows (persist_message R P msg_id now msg w).1.db ≡ rows w.db
  unfolding persist_message
  unavailable_stores_nothing w t h =
      elim (Result-cases
        (allocate_pts_with_wait R msg.receiver_id msg.sender_id pts_wait_timeout_ms w.conn).0) [
          | inl ((p, q), e) ↦ rw e (store-refused p q w.db t (rw e at h)).1
          | inr (u, e) ↦ rw (e, after_allocate)
        ]

  store-IsCovered :
      (p q : ℕ) (db : Db) (bound : String → ℕ)
      → p ≤ bound (pts_key msg.receiver_id)
      → q ≤ bound (pts_key msg.sender_id)
      → IsCovered bound (rows db)
      → IsCovered bound (rows (after_allocate R P msg_id now msg (ok (p, q)) db).1)
  unfolding after_allocate
  store-IsCovered p q db bound le_p le_q h = elim (P.insert_rows (columns msg_id msg p q) db) [
    | inl (same, _) ↦ rw same h
    | inr (more, fits) ↦ rw more (le_p, le_q, h)
  ]

  -- While the numbers in the table survive failovers, so does every number that a call stores over
  -- one connection.
  pub persist-IsCovered :
      (w : World R P)
      → IsSticky R
      → IsCovered (durable w.conn) (rows w.db)
      → let w' = (persist_message R P msg_id now msg w).1 in
        IsCovered (durable w'.conn) (rows w'.db)
  unfolding persist_message
  persist-IsCovered w sticky h =
      let c' =
        (allocate_pts_with_wait R msg.receiver_id msg.sender_id pts_wait_timeout_ms w.conn).1 in
      let grown =
        IsCovered-mono (durable w.conn) (durable c') (rows w.db)
          (λ k. (allocate_grows R msg.receiver_id msg.sender_id pts_wait_timeout_ms w.conn k).1)
          h in
      elim (Result-cases
        (allocate_pts_with_wait R msg.receiver_id msg.sender_id pts_wait_timeout_ms w.conn).0) [
          | inl ((p, q), e) ↦
              let saved =
                allocate_durable R msg.receiver_id msg.sender_id pts_wait_timeout_ms w.conn p q
                  sticky e in
              rw e (store-IsCovered p q w.db (durable c') saved.0 saved.1 grown)
          | inr (u, e) ↦ rw (e, after_allocate) grown
        ]

  -- Then the constraints on the numbers never refuse a row: a call with a new id is not answered
  -- by a uniqueness violation.
  pub covered-ne-violation :
      (w : World R P)
      → IsCovered (durable w.conn) (rows w.db)
      → is_fresh same_id (new_row 0 0 w.db) (rows w.db) ≡ true
      → (persist_message R P msg_id now msg w).0 ≢ fail unavailable uniqueness_violation
  unfolding persist_message
  covered-ne-violation w h new_id answer =
      let covered =
        IsCovered-mono (durable w.conn) (counter w.conn) (rows w.db) (R.durable_le w.conn) h in
      elim (Result-cases
        (allocate_pts_with_wait R msg.receiver_id msg.sender_id pts_wait_timeout_ms w.conn).0) [
          | inl ((p, q), e) ↦
              let bounds =
                allocate_above R msg.receiver_id msg.sender_id pts_wait_timeout_ms w.conn p q e in
              let fits =
                covered-admits (counter w.conn) (new_row p q w.db) (rows w.db) covered bounds.0
                  bounds.1
                  (fresh_id-eq (new_row p q w.db) (new_row 0 0 w.db) (rows w.db) refl ∙ new_id) in
              let (refused, _) = store-refused p q w.db uniqueness_violation (rw e at answer) in cc
          | inr (u, e) ↦ not_durable-ne-violation u (ground arith)
        ]

  -- No call lowers a value that survives a failover.
  pub persist-keeps :
      (w : World R P) (k : String)
      → durable w.conn k ≤ durable (persist_message R P msg_id now msg w).1.conn k
  unfolding persist_message
  persist-keeps w k =
      (allocate_grows R msg.receiver_id msg.sender_id pts_wait_timeout_ms w.conn k).1
