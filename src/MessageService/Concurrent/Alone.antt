-- ===== src/MessageService/Concurrent/Alone.antt =====
-- A call that no other call interrupts does what `persist_message` does.
use tinytelegram.Base.{◌≡◌, refl, inl, inr, Bool-cases, ltb}
use tinytelegram.Base.Exec.{Result-cases}
use tinytelegram.MessageService.Keys.{pts_key}
use tinytelegram.MessageService.Redis.{Redis, allocate_pts_with_wait}
use tinytelegram.MessageService.Postgres.{Postgres}
use tinytelegram.MessageService.Persist.{
  World, after_allocate, persist_message, pts_wait_timeout_ms,
}
use tinytelegram.MessageService.Concurrent.{
  Phase, started, finished, Request, on_receiver, on_sender, on_wait, advance,
}

module _ (R : Redis) (P : Postgres) (r : Request) where
  abbrev pub four_steps : World R P → Phase × World R P
  four_steps w =
      let (a, w₁) = advance R P r started w in
      let (b, w₂) = advance R P r a w₁ in let (c, w₃) = advance R P r b w₂ in advance R P r c w₃

  -- The four steps of a call, one after another, give its reply and leave the world as
  -- `persist_message` does, on every branch.
  pub four_steps-persist :
      (w : World R P)
      → let (answer, w') = persist_message R P r.msg_id r.now r.msg w in
        four_steps w ≡ (finished answer, w')
  unfolding advance on_receiver on_sender on_wait persist_message after_allocate
      allocate_pts_with_wait
  four_steps-persist w =
      let first = R.incr (pts_key r.msg.receiver_id) w.conn in
      let second = R.incr (pts_key r.msg.sender_id) first.1 in
      let third = R.wait 1 pts_wait_timeout_ms second.1 in
      elim (Result-cases first.0) [
        | inr (e, h) ↦ rw h refl
        | inl (p, h) ↦ elim (Result-cases second.0) [
          | inr (e, k) ↦ rw (h, k) refl
          | inl (q, k) ↦ elim (Result-cases third.0) [
            | inr (e, l) ↦ rw (h, k, l) refl
            | inl (acked, l) ↦ elim (Bool-cases (ltb acked 1)) [
              | inl few ↦ rw (h, k, l, few) refl
              | inr enough ↦ rw (h, k, l, enough) refl
            ]
          ]
        ]
      ]
