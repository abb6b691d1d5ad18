-- ===== src/Scripts/LoadTests/Consistency.antt =====
-- scripts/experiment4/consistency_test_simple.js, for one connection.
pub mod Passes
use tinytelegram.Base.{
  ℕ, suc, String, Bool, Option, none, some, List, [], ◌∷◌, ◌++◌, ◌&&◌, ◌==◌, ltb, if◌then◌else◌,
}
use tinytelegram.Base.Int.{pos}
use tinytelegram.Proto.{ChatMessage}
use tinytelegram.Scripts.LoadTests.{
  Frame, Sample, sample, SocketEvent, opened, ticked, received, errored, closed,
}

pub record Probe : Type 0 where
  pub local_pts : ℕ
  pub samples : List Sample

abbrev pub record_sample : String → Probe → Probe
record_sample metric s = record s { samples = s.samples ++ (sample metric (pos 1) ∷ []) }

-- An acknowledgement: a number above the next one is a gap.
unfoldable pub on_ack : ℕ → Probe → Probe
on_ack pts s =
    record (if ltb (suc s.local_pts) pts then record_sample "pts_gaps_detected" s else s) {
      local_pts = pts;
    }

abbrev count_message : Option ChatMessage → Probe → Probe
count_message none s = s
count_message (some msg) s = record_sample "messages_received" s

unfoldable pub on_message : Option Frame → Probe → Probe
unfolding on_ack
on_message none s = s
on_message (some f) s =
    count_message f.message
      (if f.type == "ack" && ltb 0 f.sender_pts then on_ack f.sender_pts s else s)

-- Every three seconds a message is sent.
unfoldable pub on_event : SocketEvent → Probe → Probe
unfolding on_message
on_event (opened now) s = s
on_event ticked s = record_sample "messages_sent" s
on_event (received f) s = on_message f s
on_event errored s = s
on_event (closed now) s = s

unfoldable pub run_events : List SocketEvent → Probe → Probe
unfolding on_event
run_events [] s = s
run_events (e ∷ es) s = run_events es (on_event e s)

-- The samples of one iteration.
unfoldable pub iteration : List SocketEvent → List Sample
unfolding run_events
iteration es = (run_events es (record { local_pts = 0; samples = [] })).samples
