-- ===== src/MessageService/DbCheck/Tests.antt =====
-- The gap query on the table that a conversation leaves.
use tinytelegram.Base.{In, ◌≡◌, ◌⊎◌, refl, List, [], ◌∷◌, All, length, ◌≤◌}
use tinytelegram.Proto.{ChatMessage}
use tinytelegram.MessageService.Keys.{pts_key}
use tinytelegram.MessageService.Redis.{allocate_pts_with_wait}
use tinytelegram.MessageService.Schema.{Row, admits, is_fresh}
use tinytelegram.MessageService.Persist.{World, persist_message}
use tinytelegram.MessageService.Sim.{redis, postgres}
use tinytelegram.MessageService.DbCheck.Gaps.{
  Gap, gap_of, partition, lag_gaps, partition_gaps, receivers, all_gaps, order_by_gap, gap_limit,
  receiver_pts_gaps,
}
use tinytelegram.MessageService.DbCheck.Gaps.Found.{IsGap, gaps_exact}

abbrev hello : ChatMessage
hello = record { sender_id = "alice"; receiver_id = "bob"; content = "hello"; client_timestamp = 1 }

abbrev answer : ChatMessage
answer = record { sender_id = "bob"; receiver_id = "alice"; content = "hi"; client_timestamp = 2 }

abbrev start : World redis postgres
start = record { conn = record { counts = λ k. 0; replicas = 1 }; db = [] }

-- alice writes, bob answers, alice writes again, and every message is stored.
abbrev conversation : List Row
conversation =
    let w₁ = (persist_message redis postgres "m1" 10 hello start).1 in
    let w₂ = (persist_message redis postgres "m2" 20 answer w₁).1 in
    (persist_message redis postgres "m3" 30 hello w₂).1.db

-- bob has the number 2 as a sender.
conversation_gaps : receiver_pts_gaps conversation ≡ gap_of "bob" 1 3 ∷ []
unfolding receiver_pts_gaps all_gaps order_by_gap receivers partition_gaps lag_gaps partition
    persist_message allocate_pts_with_wait admits is_fresh pts_key
conversation_gaps = refl

gaps_exact_example :
    let g = gap_of "bob" 1 3 in
    let page = receiver_pts_gaps conversation in
    (In g page → IsGap g conversation)
    × (IsGap g conversation
        → In g page ⊎ ((length page ≡ gap_limit) × All (λ (h : Gap). g.gap ≤ h.gap) page))
gaps_exact_example = gaps_exact (gap_of "bob" 1 3) conversation
