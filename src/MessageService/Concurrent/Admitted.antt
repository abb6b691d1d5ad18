-- ===== src/MessageService/Concurrent/Admitted.antt =====
-- The steps of calls keep their numbers apart, so the constraints of the table never refuse a row.
use tinytelegram.Base.{ℕ, ◌≡◌, inl, inr, refl, arith, String, true, none, [], sym, ◌∙◌}
use tinytelegram.MessageService.Keys.{pts_key}
use tinytelegram.MessageService.Redis.{Redis, next_user_pts}
use tinytelegram.MessageService.Schema.{same_id, is_fresh, admits}
use tinytelegram.MessageService.Postgres.{Postgres}
use tinytelegram.MessageService.Persist.{World}
use tinytelegram.MessageService.Persist.Storage.{new_row}
use tinytelegram.MessageService.Concurrent.{
  Phase, started, granted, Request, advance, System, pick, picks, counts, Reach, here, next, start,
}
use tinytelegram.MessageService.Concurrent.Numbers.{
  Role, AllBelow-mono, IsDistinct, Counts-IsDistinct, Stores-IsDistinct,
}
use tinytelegram.MessageService.Concurrent.Numbers.Acts.{
  receivers, senders, Acts, receiver-Acts, sender-Acts, lacks-receiver, lacks-sender,
}

module _ (R : Redis) (P : Postgres) (request : ℕ → Request) where
  pick-IsDistinct :
      (role : Role)
      → ((i : ℕ) (x : Phase) (w : World R P) → Acts R P request role i x w)
      → (i : ℕ) (s : System R P) → IsDistinct R P request role s
      → IsDistinct R P request role (pick R P request i s)
  unfolding pick
  pick-IsDistinct role acts i s h =
      let (x, w) = advance R P (request i) (s.phase i) s.world in
      elim (acts i (s.phase i) s.world) [
        | inl c ↦ Counts-IsDistinct R P request role i x w s c h
        | inr c ↦ Stores-IsDistinct R P request role i x w s c h
      ]

  count-IsDistinct :
      (role : Role) (user_id : String) (s : System R P)
      → IsDistinct R P request role s
      → IsDistinct R P request role
          (record s { world = record s.world { conn = (next_user_pts R user_id s.world.conn).1 } })
  unfolding next_user_pts
  count-IsDistinct role user_id s h =
      let grows = R.incr_grows (pts_key user_id) s.world.conn in
      record {
        used = λ i p e. ground (arith, h.used i p, grows (pts_key (role.user (request i).msg)));
        apart = h.apart;
        free = h.free;
        below = AllBelow-mono role (R.counter s.world.conn) _ (P.rows s.world.db) grows h.below;
      }

  -- In every state that calls reach together, from no rows, the numbers are apart in each role.
  Reach-IsDistinct :
      (role : Role) {w : World R P} {s : System R P}
      → ((i : ℕ) (x : Phase) (w : World R P) → Acts R P request role i x w)
      → role.number started ≡ none
      → P.rows w.db ≡ []
      → Reach R P request (start R P w) s
      → IsDistinct R P request role s
  Reach-IsDistinct role {w} acts none_yet empty here = record {
    used = λ i p e. ground (arith, none_yet);
    apart = λ i j p q ne same e f. ground (arith, none_yet);
    free = λ i p e. ground (arith, none_yet);
    below = rw empty tt;
  }
  Reach-IsDistinct role acts none_yet empty (next {t} r (picks i e)) =
      rw e (pick-IsDistinct role acts i t (Reach-IsDistinct role acts none_yet empty r))
  Reach-IsDistinct role acts none_yet empty (next {t} r (counts user_id e)) =
      rw e (count-IsDistinct role user_id t (Reach-IsDistinct role acts none_yet empty r))

  -- From an empty table, however the steps of any calls and of the benchmark handler interleave, a call
  -- with a new id that comes to its INSERT is admitted by the constraints of the table.
  pub granted_admitted :
      (w : World R P) (s : System R P) (i : ℕ) (p q : ℕ)
      → P.rows w.db ≡ []
      → Reach R P request (start R P w) s
      → s.phase i ≡ granted p q
      → let r = request i in
        let row = new_row R P r.msg_id r.now r.msg p q s.world.db in
        is_fresh same_id row (P.rows s.world.db) ≡ true → admits (P.rows s.world.db) row ≡ true
  unfolding admits
  granted_admitted w s i p q empty reach here_now new_id =
      let row = new_row R P (request i).msg_id (request i).now (request i).msg p q s.world.db in
      let as_receiver = Reach-IsDistinct receivers (receiver-Acts R P request) refl empty reach in
      let as_sender = Reach-IsDistinct senders (sender-Acts R P request) refl empty reach in
      let free_p = as_receiver.free i p (rw here_now refl) in
      let free_q = as_sender.free i q (rw here_now refl) in
      ground (
        arith,
        sym (lacks-receiver row (P.rows s.world.db)) ∙ free_p,
        sym (lacks-sender row (P.rows s.world.db)) ∙ free_q,
      )
