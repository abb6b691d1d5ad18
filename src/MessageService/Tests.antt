-- ===== src/MessageService/Tests.antt =====
-- The theorems about the message service at concrete inputs.
use tinytelegram.Base.{
  In, ◌<◌, ◌≤◌, ◌≡◌, ◌≢◌, refl, inl, inr, String, true, List, [], ◌∷◌, arith, eq_iff, length, map,
  false, ◌==◌, ◌⊎◌, ◌↔◌, All,
}
use tinytelegram.Base.Int.{pos}
use tinytelegram.Proto.{ChatMessage, GetDiffRequest, GetDiffResponse}
use tinytelegram.MessageService.Keys.{pts_key}
use tinytelegram.MessageService.Redis.{allocate_pts_with_wait, get_user_pts}
use tinytelegram.MessageService.Schema.{Row, IsConsistent, is_fresh, admits, same_id}
use tinytelegram.MessageService.Schema.Collision.{cross_role_collision}
use tinytelegram.MessageService.DiffQuery.{
  DiffRow, place, diff_query, project, is_missed, pts_for, order_by_pts,
}
use tinytelegram.MessageService.DiffQuery.Pages.{IsSorted, Shows}
use tinytelegram.MessageService.Persist.{
  World, reply, fail, unavailable, persisted, persist_message, uniqueness_violation,
}
use tinytelegram.MessageService.Persist.Storage.{
  new_row, persist-stored, persist-durable, unavailable_stores_nothing,
}
use tinytelegram.MessageService.Cluster.{
  Reach, here, next, persists, AnyFailover, pts_order, check_passes, no_violation,
}
use tinytelegram.MessageService.DbCheck.{duplicates, duplicate_receiver_pts, duplicate_sender_pts}
use tinytelegram.MessageService.DbCheck.Exact.{AllFresh, duplicates_exact}
use tinytelegram.MessageService.Diff.{get_diff, to_message, page_limit}
use tinytelegram.MessageService.Diff.Response.{get_diff_sync}
use tinytelegram.MessageService.Sim.{Memory, redis, redis-IsSticky, postgres}

-- Texts that compare as different are different.
text_ne : (s t : String) → (s == t) ≡ false → s ≢ t
text_ne s t h = ground (arith, eq_iff s t)

-- alice writes to bob.
abbrev hello : ChatMessage
hello = record { sender_id = "alice"; receiver_id = "bob"; content = "hello"; client_timestamp = 1 }

-- bob writes to alice.
abbrev answer : ChatMessage
answer = record { sender_id = "bob"; receiver_id = "alice"; content = "hi"; client_timestamp = 2 }

-- No numbers in use, one replica, no messages.
abbrev start : World redis postgres
start = record { conn = record { counts = λ k. 0; replicas = 1 }; db = [] }

abbrev alone : World redis postgres
alone = record { conn = record { counts = λ k. 0; replicas = 0 }; db = [] }

abbrev after_hello : World redis postgres
after_hello = (persist_message redis postgres "m1" 10 hello start).1

hello_reply :
    (persist_message redis postgres "m1" 10 hello start).0 ≡ reply (persisted "m1" 10 hello 1 1)
unfolding persist_message allocate_pts_with_wait admits is_fresh pts_key
hello_reply = refl

answer_reply :
    (persist_message redis postgres "m2" 20 answer after_hello).0
    ≡ reply (persisted "m2" 20 answer 2 2)
unfolding persist_message allocate_pts_with_wait admits is_fresh pts_key
answer_reply = refl

-- Without a replica the call is refused.
alone_reply :
    (persist_message redis postgres "m1" 10 hello alone).0
    ≡ fail unavailable "PTS not durable: PTS not durable: Redis WAIT did not receive replica ack"
unfolding persist_message allocate_pts_with_wait
alone_reply = refl

pts_order_example : 1 < 2
pts_order_example =
    pts_order redis postgres "m1" "m2" 10 20 hello answer (persisted "m1" 10 hello 1 1)
      (persisted "m2" 20 answer 2 2) start after_hello "bob" 1 2 redis-IsSticky hello_reply here
      answer_reply (inl (refl, refl)) (inr (refl, refl))

persist-stored_example :
    (after_hello.db ≡ new_row redis postgres "m1" 10 hello 1 1 start.db ∷ [])
    × (persisted "m1" 10 hello 1 1 ≡ persisted "m1" 10 hello 1 1)
    × (start.conn.counts (pts_key "bob") < 1)
    × (start.conn.counts (pts_key "alice") < 1)
persist-stored_example =
    persist-stored redis postgres "m1" 10 hello start (persisted "m1" 10 hello 1 1) hello_reply

persist-durable_example :
    (1 ≤ redis.durable after_hello.conn (pts_key "bob"))
    × (1 ≤ redis.durable after_hello.conn (pts_key "alice"))
persist-durable_example =
    persist-durable redis postgres "m1" 10 hello start (persisted "m1" 10 hello 1 1) redis-IsSticky
      hello_reply

unavailable_stores_nothing_example : (persist_message redis postgres "m1" 10 hello alone).1.db ≡ []
unavailable_stores_nothing_example =
    unavailable_stores_nothing redis postgres "m1" 10 hello alone
      "PTS not durable: PTS not durable: Redis WAIT did not receive replica ack" alone_reply

one_call : {F : Memory → Memory → Type 0} → Reach redis postgres F start after_hello
one_call = next here (persists "m1" 10 hello refl)

check_passes_example :
    (duplicate_receiver_pts after_hello.db ≡ []) × (duplicate_sender_pts after_hello.db ≡ [])
check_passes_example =
    check_passes redis postgres {F = AnyFailover redis postgres} {w = start} {w' = after_hello} refl
      one_call

new_id :
    is_fresh same_id (new_row redis postgres "m2" 20 answer 0 0 after_hello.db) after_hello.db
    ≡ true
unfolding persist_message allocate_pts_with_wait admits is_fresh pts_key
new_id = refl

no_violation_example :
    (persist_message redis postgres "m2" 20 answer after_hello).0
    ≢ fail unavailable uniqueness_violation
no_violation_example =
    no_violation redis postgres "m2" 20 answer start after_hello redis-IsSticky refl one_call new_id

abbrev ask : GetDiffRequest
ask = record { user_id = "bob"; client_pts = pos 0; limit = pos 0 }

abbrev hello_row : DiffRow
hello_row = project "bob" (new_row redis postgres "m1" 10 hello 1 1 [])

abbrev ask_response : GetDiffResponse
ask_response = record { messages = to_message "bob" hello_row ∷ []; current_pts = 1 }

ask_reply : (get_diff redis postgres ask after_hello).0 ≡ reply ask_response
unfolding get_diff get_user_pts page_limit diff_query is_missed pts_for order_by_pts place project
    persist_message allocate_pts_with_wait admits is_fresh pts_key
ask_reply = refl

get_diff_sync_example :
    (page : List DiffRow) × (ask_response.messages ≡ map (to_message "bob") page)
    × (1 ≡ after_hello.conn.counts (pts_key "bob"))
    × IsSorted page
    × (length page ≤ 1000)
    × All (Shows "bob" (pos 0) after_hello.db) page
    × ((r : Row)
        → In r after_hello.db
        → is_missed "bob" (pos 0) r ≡ true
        → In (project "bob" r) page
          ⊎ ((1 ≤ length page)
              × (length page ≡ 1000)
              × All (λ (d : DiffRow). d.pts ≤ pts_for "bob" r) page))
unfolding page_limit
get_diff_sync_example = get_diff_sync redis postgres ask after_hello ask_response ask_reply

duplicates_exact_example :
    AllFresh (λ r. r.receiver_id) (λ r. r.receiver_pts) after_hello.db
    ↔ (duplicates (λ r. r.receiver_id) (λ r. r.receiver_pts) after_hello.db ≡ [])
duplicates_exact_example =
    duplicates_exact (λ r. r.receiver_id) (λ r. r.receiver_pts) after_hello.db

-- After a failover to a node without its counters, bob has the number 1 twice.
abbrev received : Row
received = new_row redis postgres "m1" 10 hello 1 1 []

abbrev sent : Row
sent = new_row redis postgres "m2" 20 (record answer { receiver_id = "carol" }) 1 1 []

cross_role_collision_example :
    IsConsistent (sent ∷ received ∷ [])
    × (pts_for "bob" received ≡ pts_for "bob" sent)
    × (diff_query "bob" (pos 1) 10 (sent ∷ received ∷ []) ≡ [])
cross_role_collision_example =
    cross_role_collision received sent 10 refl refl (text_ne "bob" "carol" refl)
      (text_ne "alice" "bob" refl) (text_ne "m1" "m2" refl)
