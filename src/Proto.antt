-- ===== src/Proto.antt =====
-- The messages of proto/gateway.proto, which both services exchange. A message field is a pointer in
-- the generated code and may be nil, so it is an `Option`. Sequence numbers are counters that start
-- at 0 and only grow, so they are natural numbers; `client_pts` and `limit` come from the client and
-- are signed.
use tinytelegram.Base.{ℕ, String, Option, List, Bool}
use tinytelegram.Base.Int.{ℤ}

pub record ChatMessage : Type 0 where
  pub sender_id : String
  pub receiver_id : String
  pub content : String
  pub client_timestamp : ℕ

pub record PersistedMessage : Type 0 where
  pub id : String
  pub message : Option ChatMessage
  pub receiver_pts : ℕ
  pub sender_pts : ℕ
  pub server_timestamp : ℕ

pub record DeliveryAck : Type 0 where
  pub delivered : Bool

pub record GetDiffRequest : Type 0 where
  pub user_id : String
  pub client_pts : ℤ
  pub limit : ℤ

pub record GetDiffResponse : Type 0 where
  pub messages : List PersistedMessage
  pub current_pts : ℕ
