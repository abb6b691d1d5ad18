-- ===== src/MessageService/Sync/Runs.antt =====
-- After calls one after another, the newest rows of a user have its highest numbers, so a client that reads
-- page after page misses nothing.
use tinytelegram.Base.{
  In, ℕ, ◌≤◌, ◌<◌, ◌≡◌, String, true, List, [], ◌∷◌, map, arith, length, All, inl, inr, eq_iff,
  ◌==◌, Bool-cases,
}
use tinytelegram.Base.Exec.{ok, Result-cases}
use tinytelegram.Base.Int.{ℤ, pos}
use tinytelegram.Proto.{ChatMessage}
use tinytelegram.MessageService.Keys.{pts_key}
use tinytelegram.MessageService.Redis.{Redis, IsSticky, allocate_pts_with_wait}
use tinytelegram.MessageService.Redis.Allocation.{allocate_above}
use tinytelegram.MessageService.Postgres.{Postgres}
use tinytelegram.MessageService.Persist.{
  reply, World, columns, after_allocate, persist_message, pts_wait_timeout_ms,
}
use tinytelegram.MessageService.Schema.{Row}
use tinytelegram.MessageService.Schema.Coverage.{IsCovered, IsCovered-mono}
use tinytelegram.MessageService.Cluster.{
  Reach, here, next, persists, counts, fails_over, DurableFailover, Reach-IsCovered,
}
use tinytelegram.MessageService.DiffQuery.{pts_for, is_party, is_missed, project}
use tinytelegram.MessageService.DiffQuery.Pages.{Shows}
use tinytelegram.MessageService.Diff.{to_message}
use tinytelegram.MessageService.Sync.{catch_up}
use tinytelegram.MessageService.Sync.Missed.{
  IsNewestFirst, missed, IsAscending, missed-IsAscending, missed-In, missed-Shows,
}
use tinytelegram.MessageService.Sync.Complete.{Answers, catch_up-missed}

-- A number above the bound of the user is above all of the user's numbers.
covered-below :
    (u : String) (n : ℕ) (bound : String → ℕ) (rows : List Row)
    → bound (pts_key u) < n
    → IsCovered bound rows
    → All (λ s. is_party u s ≡ true → pts_for u s < n) rows
unfolding is_party pts_for
covered-below u n bound [] le h = tt
covered-below u n bound (s ∷ rows) le h =
    let receiver = eq_iff s.receiver_id u in
    let sender = eq_iff s.sender_id u in
    (
      λ party. elim (Bool-cases (s.receiver_id == u)) [
        | inl e ↦ let same = receiver.0 e in let low = rw same at h.0 in rw e (omega arith)
        | inr e ↦
            let same = sender.0 (ground arith) in let low = rw same at h.1 in rw e (omega arith)
      ],
      covered-below u n bound rows le h.2,
    )

module _ (R : Redis) (P : Postgres) (u : String) where
  -- A row whose numbers are above the bounds of its two users.
  store-IsNewestFirst :
      (msg_id : String) (now : ℕ) (msg : ChatMessage) (p q : ℕ) (bound : String → ℕ) (db : P.Db)
      → bound (pts_key msg.receiver_id) < p
      → bound (pts_key msg.sender_id) < q
      → IsCovered bound (P.rows db)
      → IsNewestFirst u (P.rows db)
      → IsNewestFirst u (P.rows (after_allocate R P msg_id now msg (ok (p, q)) db).1)
  unfolding after_allocate is_party pts_for
  store-IsNewestFirst msg_id now msg p q bound db lt_p lt_q covered h =
      let receiver = eq_iff msg.receiver_id u in
      let sender = eq_iff msg.sender_id u in
      elim (P.insert_rows (columns msg_id msg p q) db) [
        | inl (same, _) ↦ rw same h
        | inr (more, _) ↦ rw more (
          λ party. elim (Bool-cases (msg.receiver_id == u)) [
            | inl e ↦
                let low = rw (receiver.0 e) at lt_p in
                rw e (covered-below u p bound (P.rows db) low covered)
            | inr e ↦
                let low = rw (sender.0 (ground arith)) at lt_q in
                rw e (covered-below u q bound (P.rows db) low covered)
          ],
          h,
        )
      ]

  persist-IsNewestFirst :
      (msg_id : String) (now : ℕ) (msg : ChatMessage) (w : World R P)
      → IsCovered (R.durable w.conn) (P.rows w.db)
      → IsNewestFirst u (P.rows w.db)
      → IsNewestFirst u (P.rows (persist_message R P msg_id now msg w).1.db)
  unfolding persist_message
  persist-IsNewestFirst msg_id now msg w covered h =
      let counted =
        IsCovered-mono (R.durable w.conn) (R.counter w.conn) (P.rows w.db) (R.durable_le w.conn)
          covered in
      elim (Result-cases
        (allocate_pts_with_wait R msg.receiver_id msg.sender_id pts_wait_timeout_ms w.conn).0) [
          | inl ((p, q), e) ↦
              let above =
                allocate_above R msg.receiver_id msg.sender_id pts_wait_timeout_ms w.conn p q e in
              rw e (
                store-IsNewestFirst msg_id now msg p q (R.counter w.conn) w.db above.0 above.1
                  counted h)
          | inr (t, e) ↦ rw (e, after_allocate) h
        ]

  -- The table keeps the newest row of a user above its older ones.
  pub Reach-IsNewestFirst :
      {w w' : World R P}
      → IsSticky R
      → P.rows w.db ≡ []
      → Reach R P (DurableFailover R P) w w'
      → IsNewestFirst u (P.rows w'.db)
  Reach-IsNewestFirst sticky empty here = rw empty tt
  Reach-IsNewestFirst sticky empty (next {u = w₁} r (persists msg_id now msg e)) = rw e (
      persist-IsNewestFirst msg_id now msg w₁ (Reach-IsCovered R P sticky (rw empty tt) r)
        (Reach-IsNewestFirst sticky empty r))
  Reach-IsNewestFirst sticky empty (next r (counts user_id e)) =
      rw e (Reach-IsNewestFirst sticky empty r)
  Reach-IsNewestFirst sticky empty (next r (fails_over c f e)) =
      rw e (Reach-IsNewestFirst sticky empty r)

  -- Over one connection, from an empty table, if failovers lose nothing that a replica had
  -- acknowledged and every call of `GetDiff` is answered: a client that asks for page after page,
  -- each time from the last number it has got, gets every message of its own that has a higher
  -- number than it started from, once and in the order of the numbers, when it may ask for as many
  -- pages as there are such messages.
  pub caught_up :
      (limit : ℤ) (n c : ℕ) {w w' : World R P}
      → IsSticky R
      → P.rows w.db ≡ []
      → Reach R P (DurableFailover R P) w w'
      → Answers R P u limit
      → let found = missed u c (P.rows w'.db) in
        length found ≤ n
        → (catch_up R P u limit n c w' ≡ reply (map (to_message u) found))
          × IsAscending found
          × ((r : Row)
              → In r (P.rows w'.db)
              → is_missed u (pos c) r ≡ true
              → In (project u r) found)
          × All (Shows u (pos c) (P.rows w'.db)) found
  caught_up limit n c {w' = w'} sticky empty r answers few =
      let h = Reach-IsNewestFirst sticky empty r in
      (
        catch_up-missed R P u limit answers n c w' h few,
        missed-IsAscending u c (P.rows w'.db) h,
        missed-In u c (P.rows w'.db),
        missed-Shows u c (P.rows w'.db),
      )
