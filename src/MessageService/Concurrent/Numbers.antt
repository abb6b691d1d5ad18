-- ===== src/MessageService/Concurrent/Numbers.antt =====
-- The numbers that calls under way hold, in one of their two roles.
pub mod Acts
use tinytelegram.Base.{
  ℕ, ◌≤◌, ◌<◌, ◌≡◌, ◌≢◌, ◌⊎◌, inl, inr, refl, arith, String, Bool, true, false, not, ◌&&◌, Option,
  none, some, List, [], ◌∷◌, All, ◌==◌, eqb, eqb_iff, eq_iff, if◌then◌else◌,
}
use tinytelegram.Proto.{ChatMessage, PersistedMessage}
use tinytelegram.MessageService.Keys.{pts_key}
use tinytelegram.MessageService.Redis.{Redis}
use tinytelegram.MessageService.Schema.{Row}
use tinytelegram.MessageService.Postgres.{Postgres}
use tinytelegram.MessageService.Persist.{World}
use tinytelegram.MessageService.Concurrent.{Phase, Request, System, set}

-- A user is the receiver of a message or its sender, and has a number as such.
pub record Role : Type 0 where
  pub number : Phase → Option ℕ
  pub user : ChatMessage → String
  pub row_user : Row → String
  pub row_number : Row → ℕ

-- No row gives the user this number in this role.
abbrev pub lacks : Role → String → ℕ → List Row → Bool
lacks role u p [] = true
lacks role u p (r ∷ rows) =
    not ((u == role.row_user r) && eqb p (role.row_number r)) && lacks role u p rows

abbrev pub AllBelow : Role → (String → ℕ) → List Row → Type 0
AllBelow role bound rows = All (λ r. role.row_number r ≤ bound (pts_key (role.row_user r))) rows

pub AllBelow-mono :
    (role : Role) (f g : String → ℕ) (rows : List Row)
    → ((k : String) → f k ≤ g k)
    → AllBelow role f rows
    → AllBelow role g rows
AllBelow-mono role f g [] le h = tt
AllBelow-mono role f g (r ∷ rows) le h =
    let here = le (pts_key (role.row_user r)) in (omega arith, AllBelow-mono role f g rows le h.1)

-- A number above the counter is in no row.
above-lacks :
    (role : Role) (bound : String → ℕ) (u : String) (p : ℕ) (rows : List Row)
    → AllBelow role bound rows
    → bound (pts_key u) < p
    → lacks role u p rows ≡ true
above-lacks role bound u p [] h lt = refl
above-lacks role bound u p (r ∷ rows) h lt =
    ground (arith, eq_iff u (role.row_user r), above-lacks role bound u p rows h.1)

module _ (R : Redis) (P : Postgres) (request : ℕ → Request) (role : Role) where
  abbrev pub user_of : ℕ → String
  user_of i = role.user (request i).msg

  -- The numbers that calls hold are used, each by one call for a user, and by no row.
  pub record IsDistinct (s : System R P) : Type 0 where
    pub used :
        (i p : ℕ)
        → role.number (s.phase i) ≡ some p
        → p ≤ R.counter s.world.conn (pts_key (user_of i))
    pub apart :
        (i j p q : ℕ)
        → i ≢ j
        → user_of i ≡ user_of j
        → role.number (s.phase i) ≡ some p
        → role.number (s.phase j) ≡ some q
        → p ≢ q
    pub free :
        (i p : ℕ)
        → role.number (s.phase i) ≡ some p
        → lacks role (user_of i) p (P.rows s.world.db) ≡ true
    pub below : AllBelow role (R.counter s.world.conn) (P.rows s.world.db)

  -- A step of call `i` in Redis: a number that it did not have is above the counter.
  pub record Counts (i : ℕ) (x x' : Phase) (w w' : World R P) : Type 0 where
    pub same_db : w'.db ≡ w.db
    pub grows : (k : String) → R.counter w.conn k ≤ R.counter w'.conn k
    pub fresh :
        (p : ℕ)
        → role.number x' ≡ some p
        → (role.number x ≡ some p)
          ⊎ ((R.counter w.conn (pts_key (user_of i)) < p)
              × (p ≤ R.counter w'.conn (pts_key (user_of i))))

  -- The step of call `i` in Postgres: its row has its number.
  pub record Stores (i : ℕ) (x x' : Phase) (w w' : World R P) : Type 0 where
    pub same_conn : w'.conn ≡ w.conn
    pub done : role.number x' ≡ none
    pub held : ℕ
    pub holds : role.number x ≡ some held
    pub row : Row
    pub row_is : (role.row_user row ≡ user_of i) × (role.row_number row ≡ held)
    pub kept : (P.rows w'.db ≡ P.rows w.db) ⊎ (P.rows w'.db ≡ row ∷ P.rows w.db)

  abbrev after : ℕ → Phase → World R P → System R P → System R P
  after i x w s = record { world = w; phase = set R P s.phase i x }

  pub Counts-IsDistinct :
      (i : ℕ) (x : Phase) (w : World R P) (s : System R P)
      → Counts i (s.phase i) x s.world w
      → IsDistinct s
      → IsDistinct (after i x w s)
  Counts-IsDistinct i x w s c h =
      let counter = R.counter s.world.conn in
      record {
        used = λ j p e. ground (arith, h.used j p, c.fresh p, c.grows (pts_key (user_of j)));
        apart = λ j k p q ne same e f.
            ground (arith, c.fresh p, c.fresh q, h.used j p, h.used k q, h.apart j k p q);
        free = λ j p e. rw c.same_db (
            ground (
              arith,
              c.fresh p,
              h.free j p,
              above-lacks role counter (user_of j) p (P.rows s.world.db) h.below,
            ));
        below =
            rw c.same_db
              (AllBelow-mono role counter (R.counter w.conn) (P.rows s.world.db) c.grows h.below);
      }

  pub Stores-IsDistinct :
      (i : ℕ) (x : Phase) (w : World R P) (s : System R P)
      → Stores i (s.phase i) x s.world w
      → IsDistinct s
      → IsDistinct (after i x w s)
  Stores-IsDistinct i x w s c h = record {
    used = λ j p e. ground (arith, c.done, c.same_conn, h.used j p);
    apart = λ j k p q ne same e f. ground (arith, c.done, h.apart j k p q);
    free = λ j p e. ground (
      arith,
      c.done,
      c.kept,
      c.row_is,
      c.holds,
      h.free j p,
      h.apart j i p c.held,
      eq_iff (user_of j) (role.row_user c.row),
    );
    below = ground (arith, c.same_conn, c.kept, c.row_is, h.below, h.used i c.held c.holds);
  }
