-- ===== src/MessageService/Sync.antt =====
-- How a client catches up by `GetDiff` (message-service/grpc/server.go), page after page.
pub mod Missed
pub mod After
pub mod Complete
pub mod Runs
pub mod AnyOrder
mod Tests
use tinytelegram.Base.{ℕ, zero, suc, String, Option, none, some, List, [], ◌∷◌, ◌++◌}
use tinytelegram.Base.Int.{ℤ, pos}
use tinytelegram.Proto.{PersistedMessage, GetDiffRequest, GetDiffResponse}
use tinytelegram.MessageService.Redis.{Redis}
use tinytelegram.MessageService.Postgres.{Postgres}
use tinytelegram.MessageService.Persist.{Reply, reply, fail, World}
use tinytelegram.MessageService.Diff.{get_diff}
use tinytelegram.WebClient.{pts_of}

-- The number of a message that applies to the user.
abbrev pub number : String → PersistedMessage → ℕ
number user_id m = elim m.message [ none ↦ 0 | some msg ↦ pts_of user_id msg m ]

abbrev pub last_number : String → ℕ → List PersistedMessage → ℕ
last_number user_id c [] = c
last_number user_id c (m ∷ ms) = last_number user_id (number user_id m) ms

module _ (R : Redis) (P : Postgres) (user_id : String) (limit : ℤ) where
  -- The messages so far, with those of the pages that follow.
  abbrev pub prepend :
      List PersistedMessage → Reply (List PersistedMessage) → Reply (List PersistedMessage)
  prepend ms (reply rest) = reply (ms ++ rest)
  prepend ms (fail code e) = fail code e

  -- The last page is empty; after any other, the client goes on from its last number.
  abbrev pub after_messages :
      (ℕ → World R P → Reply (List PersistedMessage))
      → ℕ
      → World R P
      → List PersistedMessage
      → Reply (List PersistedMessage)
  after_messages go c w [] = reply []
  after_messages go c w (m ∷ ms) =
      prepend (m ∷ ms) (go (last_number user_id (number user_id m) ms) w)

  abbrev pub after_page :
      (ℕ → World R P → Reply (List PersistedMessage))
      → ℕ
      → Reply GetDiffResponse × World R P
      → Reply (List PersistedMessage)
  after_page go c (fail code e, w) = fail code e
  after_page go c (reply resp, w) = after_messages go c w resp.messages

  -- At most `n` pages, from the number `c` of the client.
  unfoldable pub catch_up : ℕ → ℕ → World R P → Reply (List PersistedMessage)
  catch_up zero c w = reply []
  catch_up (suc n) c w =
      after_page (catch_up n) c
        (get_diff R P (record { user_id = user_id; client_pts = pos c; limit = limit }) w)
