-- ===== src/MessageService/Concurrent/Numbers/Acts.antt =====
-- What each step of a call does to the numbers that it holds as a receiver's and as a sender's.
use tinytelegram.Base.{
  ℕ, ◌≡◌, ◌⊎◌, inl, inr, refl, arith, Option, none, some, List, [], ◌∷◌, sym, ap,
}
use tinytelegram.Base.Exec.{Result, ok, err}
use tinytelegram.MessageService.Keys.{pts_key}
use tinytelegram.MessageService.Redis.{Redis}
use tinytelegram.MessageService.Schema.{Row, same_receiver, same_sender, is_fresh}
use tinytelegram.MessageService.Postgres.{Postgres, row_of}
use tinytelegram.MessageService.Persist.{World, columns, pts_wait_timeout_ms}
use tinytelegram.MessageService.Concurrent.{
  Phase, started, got_receiver, got_both, granted, finished, Request, on_receiver, on_sender,
  on_wait, advance,
}
use tinytelegram.MessageService.Concurrent.Numbers.{Role, lacks, Counts, Stores}

abbrev pub receiver_number : Phase → Option ℕ
receiver_number (got_receiver p) = some p
receiver_number (got_both p q) = some p
receiver_number (granted p q) = some p
receiver_number _ = none

abbrev pub sender_number : Phase → Option ℕ
sender_number (got_both p q) = some q
sender_number (granted p q) = some q
sender_number _ = none

abbrev pub receivers : Role
receivers = record {
  number = receiver_number;
  user = λ m. m.receiver_id;
  row_user = λ r. r.receiver_id;
  row_number = λ r. r.receiver_pts;
}

abbrev pub senders : Role
senders = record {
  number = sender_number;
  user = λ m. m.sender_id;
  row_user = λ r. r.sender_id;
  row_number = λ r. r.sender_pts;
}

pub lacks-receiver :
    (r : Row) (rows : List Row)
    → lacks receivers r.receiver_id r.receiver_pts rows ≡ is_fresh same_receiver r rows
unfolding is_fresh
lacks-receiver r [] = refl
lacks-receiver r (s ∷ rows) = rw (lacks-receiver r rows) refl

pub lacks-sender :
    (r : Row) (rows : List Row)
    → lacks senders r.sender_id r.sender_pts rows ≡ is_fresh same_sender r rows
unfolding is_fresh
lacks-sender r [] = refl
lacks-sender r (s ∷ rows) = rw (lacks-sender r rows) refl

-- What the answers of Redis add to the numbers that a call holds.
receiver-number :
    (answer : Result ℕ) (p : ℕ) → receiver_number (on_receiver answer) ≡ some p → answer ≡ ok p
unfolding on_receiver
receiver-number (ok v) p e = ground arith
receiver-number (err t) p e = absurd (ground arith)

receiver-no_sender : (answer : Result ℕ) (p : ℕ) → sender_number (on_receiver answer) ≡ some p → ⊥
unfolding on_receiver
receiver-no_sender (ok v) p e = ground arith
receiver-no_sender (err t) p e = ground arith

sender-number :
    (v : ℕ) (answer : Result ℕ) (p : ℕ)
    → (receiver_number (on_sender v answer) ≡ some p → p ≡ v)
      × (sender_number (on_sender v answer) ≡ some p → answer ≡ ok p)
unfolding on_sender
sender-number v (ok q) p = ((λ e. ground arith), λ e. ground arith)
sender-number v (err t) p = ((λ e. absurd (ground arith)), λ e. absurd (ground arith))

wait-number :
    (v q : ℕ) (answer : Result ℕ) (p : ℕ)
    → (receiver_number (on_wait v q answer) ≡ some p → p ≡ v)
      × (sender_number (on_wait v q answer) ≡ some p → p ≡ q)
unfolding on_wait
wait-number v q (ok acked) p = ((λ e. ground arith), λ e. ground arith)
wait-number v q (err t) p = ((λ e. absurd (ground arith)), λ e. absurd (ground arith))

module _ (R : Redis) (P : Postgres) (request : ℕ → Request) where
  abbrev pub Acts : Role → ℕ → Phase → World R P → Type 0
  Acts role i x w =
      let (x', w') = advance R P (request i) x w in
      Counts R P request role i x x' w w' ⊎ Stores R P request role i x x' w w'

  pub receiver-Acts : (i : ℕ) (x : Phase) (w : World R P) → Acts receivers i x w
  unfolding advance
  receiver-Acts i started w =
      let key = pts_key (request i).msg.receiver_id in
      inl (record {
        same_db = refl;
        grows = R.incr_grows key w.conn;
        fresh = λ p e. inr (R.incr_ok key w.conn (receiver-number (R.incr key w.conn).0 p e));
      })
  receiver-Acts i (got_receiver v) w =
      let key = pts_key (request i).msg.sender_id in
      inl (record {
        same_db = refl;
        grows = R.incr_grows key w.conn;
        fresh = λ p e. inl (ap some (sym ((sender-number v (R.incr key w.conn).0 p).0 e)));
      })
  receiver-Acts i (got_both v q) w =
      let answer = (R.wait 1 pts_wait_timeout_ms w.conn).0 in
      inl (record {
        same_db = refl;
        grows = R.wait_grows 1 pts_wait_timeout_ms w.conn;
        fresh = λ p e. inl (ap some (sym ((wait-number v q answer p).0 e)));
      })
  receiver-Acts i (granted p q) w =
      let v = columns (request i).msg_id (request i).msg p q in
      inr (record {
        same_conn = refl;
        done = refl;
        held = p;
        holds = refl;
        row = row_of v (P.clock w.db);
        row_is = (refl, refl);
        kept = elim (P.insert_rows v w.db) [ inl (same, _) ↦ inl same | inr (more, _) ↦ inr more ];
      })
  receiver-Acts i (finished a) w =
      inl (record { same_db = refl; grows = λ k. omega arith; fresh = λ p e. inl e })

  pub sender-Acts : (i : ℕ) (x : Phase) (w : World R P) → Acts senders i x w
  unfolding advance
  sender-Acts i started w =
      let key = pts_key (request i).msg.receiver_id in
      inl (record {
        same_db = refl;
        grows = R.incr_grows key w.conn;
        fresh = λ p e. absurd (receiver-no_sender (R.incr key w.conn).0 p e);
      })
  sender-Acts i (got_receiver v) w =
      let key = pts_key (request i).msg.sender_id in
      inl (record {
        same_db = refl;
        grows = R.incr_grows key w.conn;
        fresh = λ p e. inr (R.incr_ok key w.conn ((sender-number v (R.incr key w.conn).0 p).1 e));
      })
  sender-Acts i (got_both v q) w =
      let answer = (R.wait 1 pts_wait_timeout_ms w.conn).0 in
      inl (record {
        same_db = refl;
        grows = R.wait_grows 1 pts_wait_timeout_ms w.conn;
        fresh = λ p e. inl (ap some (sym ((wait-number v q answer p).1 e)));
      })
  sender-Acts i (granted p q) w =
      let v = columns (request i).msg_id (request i).msg p q in
      inr (record {
        same_conn = refl;
        done = refl;
        held = q;
        holds = refl;
        row = row_of v (P.clock w.db);
        row_is = (refl, refl);
        kept = elim (P.insert_rows v w.db) [ inl (same, _) ↦ inl same | inr (more, _) ↦ inr more ];
      })
  sender-Acts i (finished a) w =
      inl (record { same_db = refl; grows = λ k. omega arith; fresh = λ p e. inl e })
