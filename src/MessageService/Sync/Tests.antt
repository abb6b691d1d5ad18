-- ===== src/MessageService/Sync/Tests.antt =====
-- Catching up at a concrete input: two messages, in pages of one.
use tinytelegram.Base.{In, ◌≡◌, refl, String, true, List, [], ◌∷◌, map, arith, length, All}
use tinytelegram.Base.Exec.{Result, ok}
use tinytelegram.Base.Int.{ℤ, pos}
use tinytelegram.Proto.{ChatMessage}
use tinytelegram.MessageService.Keys.{pts_key}
use tinytelegram.MessageService.Redis.{allocate_pts_with_wait, get_user_pts}
use tinytelegram.MessageService.Schema.{Row, is_fresh, admits}
use tinytelegram.MessageService.DiffQuery.{
  DiffRow, place, diff_query, project, is_party, is_missed, pts_for, order_by_pts,
}
use tinytelegram.MessageService.DiffQuery.Pages.{Shows}
use tinytelegram.MessageService.Persist.{World, reply, persist_message}
use tinytelegram.MessageService.Cluster.{Reach, here, next, persists, DurableFailover}
use tinytelegram.MessageService.Diff.{
  get_diff, to_message, page_limit, collect, after_rows, read_messages, with_current_pts,
}
use tinytelegram.MessageService.Sim.{redis, redis-IsSticky, postgres}
use tinytelegram.MessageService.Sync.{catch_up}
use tinytelegram.MessageService.Sync.Missed.{missed, IsAscending}
use tinytelegram.MessageService.Sync.Complete.{Answers}
use tinytelegram.MessageService.Sync.Runs.{caught_up}
use tinytelegram.MessageService.Sync.AnyOrder.{page_any_order}
use tinytelegram.MessageService.Persist.Storage.{new_row}
use mathlib.Core.List.{Permᴰ}

collect-map :
    (u : String) (page : List DiffRow)
    → collect u (map {B = Result DiffRow} ok page) ≡ ok (map (to_message u) page)
unfolding collect
collect-map u [] = refl
collect-map u (r ∷ page) = rw (collect-map u page) refl

read_all :
    (u : String) (page : List DiffRow) (db : List Row)
    → read_messages redis postgres u page db ≡ ok (map (to_message u) page)
unfolding read_messages after_rows
read_all u page db = rw (read_messages, collect-map u page) refl

-- The stores of the tests answer every call.
answers : (u : String) (limit : ℤ) → Answers redis postgres u limit
unfolding get_diff with_current_pts get_user_pts pts_key
answers u limit c w =
    let page = diff_query u (pos c) (page_limit limit) w.db in
    (
      record { messages = map (to_message u) page; current_pts = w.conn.counts (pts_key u) },
      rw (get_diff, read_all u page w.db) refl,
    )

abbrev start : World redis postgres
start = record { conn = record { counts = λ k. 0; replicas = 1 }; db = [] }

abbrev first : ChatMessage
first = record { sender_id = "alice"; receiver_id = "bob"; content = "one"; client_timestamp = 1 }

abbrev second : ChatMessage
second = record { sender_id = "bob"; receiver_id = "carol"; content = "two"; client_timestamp = 2 }

abbrev after_first : World redis postgres
after_first = (persist_message redis postgres "m1" 10 first start).1

abbrev after_second : World redis postgres
after_second = (persist_message redis postgres "m2" 20 second after_first).1

two_calls : Reach redis postgres (DurableFailover redis postgres) start after_second
two_calls = next (next here (persists "m1" 10 first refl)) (persists "m2" 20 second refl)

abbrev found : List DiffRow
found = missed "bob" 0 after_second.db

two_missed : length found ≡ 2
unfolding missed is_missed is_party pts_for order_by_pts place project persist_message
    allocate_pts_with_wait admits is_fresh pts_key
two_missed = refl

caught_up_example :
    (catch_up redis postgres "bob" (pos 1) 2 0 after_second ≡ reply (map (to_message "bob") found))
    × IsAscending found
    × ((r : Row)
        → In r after_second.db
        → is_missed "bob" (pos 0) r ≡ true
        → In (project "bob" r) found)
    × All (Shows "bob" (pos 0) after_second.db) found
caught_up_example =
    caught_up redis postgres "bob" (pos 1) 2 0 {w = start} {w' = after_second} redis-IsSticky refl
      two_calls (answers "bob" (pos 1)) (rw two_missed (omega arith))

abbrev rows : List Row
rows = after_second.db

abbrev newest : Row
newest = new_row redis postgres "m2" 20 second 1 2 after_first.db

abbrev oldest : Row
oldest = new_row redis postgres "m1" 10 first 1 1 []

two_rows : rows ≡ newest ∷ oldest ∷ []
unfolding persist_message allocate_pts_with_wait admits is_fresh pts_key
two_rows = refl

page_any_order_example :
    diff_query "bob" (pos 0) 1 rows ≡ diff_query "bob" (pos 0) 1 (oldest ∷ newest ∷ [])
page_any_order_example =
    page_any_order redis postgres "bob" (pos 0) 1 {w = start} {w' = after_second}
      (oldest ∷ newest ∷ []) redis-IsSticky refl two_calls (rw two_rows (∣ Permᴰ.swap refl refl ∣₁))
