-- ===== src/MessageService/Postgres.antt =====
-- The Postgres server behind message-service/store/postgres.go, as far as the handlers rely on it.
use text.Mathlib.Text.{find?}
use tinytelegram.Base.{
  ℕ, ◌≡◌, ◌≢◌, ◌⊎◌, String, Bool, true, false, ◌||◌, Option, none, some, List, ◌∷◌, map,
}
use tinytelegram.Base.Exec.{Result, ok, err, Exec}
use tinytelegram.MessageService.Schema.{Row, admits}
use tinytelegram.MessageService.DiffQuery.{DiffRow}

-- The values of the INSERT statement; `created_at` has a default.
pub record Columns : Type 0 where
  pub id : String
  pub sender_id : String
  pub receiver_id : String
  pub content : String
  pub sender_pts : ℕ
  pub receiver_pts : ℕ

abbrev pub row_of : Columns → ℕ → Row
row_of v now = record {
  id = v.id;
  sender_id = v.sender_id;
  receiver_id = v.receiver_id;
  content = v.content;
  sender_pts = v.sender_pts;
  receiver_pts = v.receiver_pts;
  created_at = now;
}

-- strings.Contains
unfoldable pub contains : String → String → Bool
contains s substr = elim (find? s substr) [ none ↦ false | some i ↦ true ]

unfoldable pub is_unique_violation : String → Bool
is_unique_violation e =
    contains e "duplicate key value violates unique constraint"
    || (contains e "uniq_receiver_pts" || contains e "uniq_sender_pts")

-- The server. An INSERT stores the row, and only if the constraints admit it, or stores nothing and
-- fails; the reply to one that stored its row may be lost. A unique violation is reported only
-- where a constraint refuses the row. A SELECT hands its result over row by row.
pub record Postgres : Type 1 where
  pub Db : Type 0
  pub rows : Db → List Row
  pub clock : Db → ℕ
  pub insert : Columns → Exec Db (Unit {0})
  pub select : Db → List DiffRow → Result (List (Result DiffRow) × Option String)
  pub insert_rows :
      (v : Columns) (d : Db)
      → ((rows (insert v d).1 ≡ rows d) × ((insert v d).0 ≢ ok tt))
        ⊎ ((rows (insert v d).1 ≡ row_of v (clock d) ∷ rows d)
            × (admits (rows d) (row_of v (clock d)) ≡ true))
  pub insert_violation :
      (v : Columns) (d : Db) {e : String}
      → (insert v d).0 ≡ err e
      → is_unique_violation e ≡ true
      → admits (rows d) (row_of v (clock d)) ≡ false
  pub select_rows :
      (d : Db) (q page : List DiffRow) → select d q ≡ ok (map ok page, none) → page ≡ q
