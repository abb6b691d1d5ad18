-- ===== src/MessageService/Sim.antt =====
-- A Redis and a Postgres for the tests: they meet the interfaces by plain functions.
use tinytelegram.Base.{
  ℕ, suc, ◌≤◌, ◌<◌, ◌≡◌, refl, ◌⊎◌, inl, inr, ◌≢◌, String, true, false, Option, none, some, List,
  [], ◌∷◌, map, arith, ◌==◌, eq_iff, ltb, if◌then◌else◌, Bool-cases,
}
use tinytelegram.Base.Exec.{Result, ok, err, Exec}
use tinytelegram.MessageService.Redis.{Redis, IsSticky, or_zero}
use tinytelegram.MessageService.Schema.{Row, admits}
use tinytelegram.MessageService.DiffQuery.{DiffRow}
use tinytelegram.MessageService.Postgres.{Postgres, Columns, row_of, is_unique_violation}

-- Counters, and the number of replicas that acknowledge every write at once.
pub record Memory : Type 0 where
  pub counts : String → ℕ
  pub replicas : ℕ

abbrev durable_count : Memory → String → ℕ
durable_count c j = if ltb 0 c.replicas then c.counts j else 0

abbrev pub incr_count : String → Exec Memory ℕ
incr_count k c = (
  ok (suc (c.counts k)),
  record { counts = λ j. if k == j then suc (c.counts k) else c.counts j; replicas = c.replicas },
)

abbrev count_wait : ℕ → ℕ → Exec Memory ℕ
count_wait n t c = (ok c.replicas, c)

pub incr_count_ok :
    (k : String) (c : Memory) {v : ℕ}
    → (incr_count k c).0 ≡ ok v
    → (c.counts k < v) × (v ≤ (incr_count k c).1.counts k)
incr_count_ok k c h = ground (arith, eq_iff k k)

pub count_wait_acked :
    (n t : ℕ) (c : Memory) {acked : ℕ}
    → (count_wait n t c).0 ≡ ok acked
    → 1 ≤ acked
    → (j : String) → c.counts j ≤ durable_count (count_wait n t c).1 j
count_wait_acked n t c h le j = ground arith

pub durable_count_le : (c : Memory) (j : String) → durable_count c j ≤ c.counts j
durable_count_le c j = ground arith

pub count_grows : (k : String) (c : Memory) (j : String) → c.counts j ≤ (incr_count k c).1.counts j
count_grows k c j = ground (arith, eq_iff k j)

pub count_keeps :
    (k : String) (c : Memory) (j : String) → durable_count c j ≤ durable_count (incr_count k c).1 j
count_keeps k c j = ground (arith, eq_iff k j)

pub count_read :
    (k : String) (c : Memory) {o : Option ℕ}
    → ◌≡◌ {A = Result (Option ℕ)} (ok (some (c.counts k))) (ok o)
    → or_zero o ≡ c.counts k
count_read k c h = ground arith

abbrev pub redis : Redis
redis = record {
  Conn = Memory;
  counter = λ c. c.counts;
  durable = durable_count;
  logged = λ c. c.counts;
  incr = incr_count;
  wait = count_wait;
  get_int = λ k c. (ok (some (c.counts k)), c);
  get = λ k c. (err "redis: nil", c);
  durable_le = durable_count_le;
  incr_grows = count_grows;
  incr_keeps = count_keeps;
  incr_ok = incr_count_ok;
  wait_grows = λ n t c j. omega arith;
  wait_keeps = λ n t c j. omega arith;
  wait_acked = count_wait_acked;
  get_int_ok = count_read;
}

pub redis-IsSticky : IsSticky redis
redis-IsSticky = record {
  incr_logged = λ k c h. ground (arith, eq_iff k k);
  incr_keeps_log = λ k c j. count_grows k c j;
}

abbrev pub store_row : Columns → Exec (List Row) (Unit {0})
store_row v d =
    if admits d (row_of v 7)
    then (ok tt, row_of v 7 ∷ d)
    else (err "duplicate key value violates unique constraint", d)

pub store_row_rows :
    (v : Columns) (d : List Row)
    → (((store_row v d).1 ≡ d) × ((store_row v d).0 ≢ ok tt))
      ⊎ (((store_row v d).1 ≡ row_of v 7 ∷ d) × (admits d (row_of v 7) ≡ true))
store_row_rows v d = elim (Bool-cases (admits d (row_of v 7))) [
  | inl e ↦ rw e (inr (refl, refl))
  | inr e ↦ rw e (inl (refl, λ h. cc))
]

pub store_row_violation :
    (v : Columns) (d : List Row) {e : String}
    → (store_row v d).0 ≡ err e
    → is_unique_violation e ≡ true
    → admits d (row_of v 7) ≡ false
store_row_violation v d h u = ground arith

handed_over : (q page : List DiffRow) → map {B = Result DiffRow} ok q ≡ map ok page → page ≡ q
handed_over [] [] h = refl
handed_over [] (r ∷ page) h = absurd (ground arith)
handed_over (s ∷ q) [] h = absurd (ground arith)
handed_over (s ∷ q) (r ∷ page) h = ground (arith, handed_over q page)

pub hand_over-rows :
    (d : List Row) (q page : List DiffRow)
    → ◌≡◌ {A = Result (List (Result DiffRow) × Option String)}
        (ok (map ok q, none))
        (ok (map ok page, none))
    → page ≡ q
hand_over-rows d q page h = handed_over q page (ground arith)

abbrev pub postgres : Postgres
postgres = record {
  Db = List Row;
  rows = λ d. d;
  clock = λ d. 7;
  insert = store_row;
  select = λ d q. ok (map ok q, none);
  insert_rows = store_row_rows;
  insert_violation = store_row_violation;
  select_rows = hand_over-rows;
}
