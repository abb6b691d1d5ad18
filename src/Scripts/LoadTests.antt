-- ===== src/Scripts/LoadTests.antt =====
-- The load tests of scripts/experiment3 and scripts/experiment4, as far as they measure: what they read
-- of the frames that come in, and the samples that k6 writes for them.
pub mod Output
pub mod Failover
pub mod Consistency
pub mod Writes
mod Tests
use tinytelegram.Base.{
  ℕ, zero, suc, ◌-◌, String, Bool, Option, none, some, List, [], ◌∷◌, ◌++◌, ltb, leb, if◌then◌else◌,
}
use tinytelegram.Base.Int.{ℤ, pos, negsuc}
use tinytelegram.Proto.{ChatMessage}

-- A frame, as JSON.parse reads it. A field that is missing is empty, 0 or none: the scripts treat the
-- two alike.
pub record Frame : Type 0 where
  pub type : String
  pub sender_pts : ℕ
  pub receiver_pts : ℕ
  pub message : Option ChatMessage

-- metric.add(value)
pub record Sample : Type 0 where
  pub metric : String
  pub value : ℤ

abbrev pub sample : String → ℤ → Sample
sample metric value = record { metric = metric; value = value }

-- What a script does in one connection: a frame that JSON.parse rejects is `none`.
pub data SocketEvent : Type 0 where
  opened : ℕ → SocketEvent
  ticked : SocketEvent
  received : Option Frame → SocketEvent
  errored : SocketEvent
  closed : ℕ → SocketEvent

-- The difference of two times.
unfoldable pub elapsed : ℕ → ℕ → ℤ
elapsed now start = if leb start now then pos (now - start) else negsuc (start - now - 1)

-- The numbers between two, when the second is not the next one: `found - last - 1`.
unfoldable pub gap : ℕ → ℕ → ℕ
gap last found = found - last - 1
