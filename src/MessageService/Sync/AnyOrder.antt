-- ===== src/MessageService/Sync/AnyOrder.antt =====
-- After any calls, a page of `GetDiff` does not depend on the order in which Postgres has the rows.
use mathlib.Core.List.{Perm}
use tinytelegram.Base.{ℕ, ◌<◌, ◌≡◌, ◌≢◌, String, true, List, [], ◌∷◌, arith, All-map}
use tinytelegram.Base.Int.{ℤ}
use tinytelegram.MessageService.Redis.{Redis, IsSticky}
use tinytelegram.MessageService.Postgres.{Postgres}
use tinytelegram.MessageService.Persist.{World}
use tinytelegram.MessageService.Schema.{Row}
use tinytelegram.MessageService.Cluster.{Reach, DurableFailover}
use tinytelegram.MessageService.DiffQuery.{pts_for, is_party, diff_query}
use tinytelegram.MessageService.DiffQuery.Rows.{NumbersDiffer, diff_query-Perm}
use tinytelegram.MessageService.Sync.Missed.{IsNewestFirst}
use tinytelegram.MessageService.Sync.Runs.{Reach-IsNewestFirst}

IsNewestFirst-NumbersDiffer :
    (u : String) (rows : List Row) → IsNewestFirst u rows → NumbersDiffer u rows
IsNewestFirst-NumbersDiffer u [] h = tt
IsNewestFirst-NumbersDiffer u (r ∷ rows) h = (
  λ party.
      All-map (λ s. is_party u s ≡ true → pts_for u s < pts_for u r)
        (λ s. is_party u s ≡ true → pts_for u s ≢ pts_for u r) rows
        (λ s below party_s same. absurd (omega (arith, below party_s, same))) (h.0 party),
  IsNewestFirst-NumbersDiffer u rows h.1,
)

-- Over one connection, from an empty table, if failovers lose nothing that a replica had
-- acknowledged: whatever calls are made, every page of a user is the same for every order of the
-- rows of the table.
pub page_any_order :
    (R : Redis) (P : Postgres) (u : String) (c : ℤ) (limit : ℕ) {w w' : World R P}
    (table : List Row)
    → IsSticky R
    → P.rows w.db ≡ []
    → Reach R P (DurableFailover R P) w w'
    → Perm (P.rows w'.db) table
    → diff_query u c limit (P.rows w'.db) ≡ diff_query u c limit table
page_any_order R P u c limit {w' = w'} table sticky empty r same =
    diff_query-Perm u c limit (P.rows w'.db) table
      (IsNewestFirst-NumbersDiffer u (P.rows w'.db) (Reach-IsNewestFirst R P u sticky empty r)) same
