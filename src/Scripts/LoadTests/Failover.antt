-- ===== src/Scripts/LoadTests/Failover.antt =====
-- scripts/experiment3/failover_test.js, for one connection. The messages that it sends are left out: no
-- metric counts them.
pub mod Unmeasured
pub mod Lost
use Prim.Native.Nat.{max}
use tinytelegram.Base.{
  ℕ, suc, String, Bool, true, false, not, Option, none, some, List, [], ◌∷◌, ◌++◌, ◌&&◌, ◌==◌, eqb,
  ltb, if◌then◌else◌,
}
use tinytelegram.Base.Int.{ℤ, pos}
use tinytelegram.Proto.{ChatMessage}
use tinytelegram.Scripts.LoadTests.{
  Frame, Sample, sample, SocketEvent, opened, ticked, received, errored, closed, elapsed, gap,
}

pub record Probe : Type 0 where
  pub connection_established : Bool
  pub connection_dropped : Bool
  pub reconnect_start_time : ℕ
  pub last_pts : ℕ
  pub samples : List Sample

abbrev pub start : Probe
start = record {
  connection_established = false;
  connection_dropped = false;
  reconnect_start_time = 0;
  last_pts = 0;
  samples = [];
}

abbrev pub add_sample : String → ℤ → Probe → Probe
add_sample metric value s = record s { samples = s.samples ++ (sample metric value ∷ []) }

-- A time of 0 stands for no drop so far.
unfoldable pub on_open : ℕ → Probe → Probe
unfolding elapsed
on_open now s =
    let s' = record s { connection_established = true } in
    if ltb 0 s'.reconnect_start_time
    then add_sample "reconnect_success_rate" (pos 1)
        (add_sample "reconnect_time_ms" (elapsed now s'.reconnect_start_time) s')
    else s'

-- Numbers that were passed over count as lost messages, once there was a number.
unfoldable pub count_lost : ℕ → Probe → Probe
unfolding gap
count_lost pts s =
    if ltb 0 s.last_pts && ltb (suc s.last_pts) pts
    then add_sample "messages_lost_during_failover" (pos (gap s.last_pts pts)) s
    else s

unfoldable pub on_ack : ℕ → Probe → Probe
unfolding count_lost
on_ack new_pts s = record (count_lost new_pts s) { last_pts = new_pts }

unfoldable pub on_incoming : ℕ → Probe → Probe
unfolding count_lost
on_incoming pts s =
    if ltb 0 pts then record (count_lost pts s) { last_pts = max s.last_pts pts } else s

-- msg.receiver_pts || msg.sender_pts
abbrev pub either_pts : Frame → ℕ
either_pts f = if ltb 0 f.receiver_pts then f.receiver_pts else f.sender_pts

abbrev pub incoming : Option ChatMessage → ℕ → Probe → Probe
incoming none pts s = s
incoming (some msg) pts s = on_incoming pts s

unfoldable pub on_message : Option Frame → Probe → Probe
unfolding on_ack on_incoming
on_message none s = s
on_message (some f) s =
    incoming f.message (either_pts f)
      (if f.type == "ack" && ltb 0 f.sender_pts then on_ack f.sender_pts s else s)

-- The first time only.
unfoldable pub on_close : ℕ → Probe → Probe
on_close now s =
    if s.connection_established && not s.connection_dropped
    then record (add_sample "connection_drops" (pos 1) s) {
      connection_dropped = true;
      reconnect_start_time = now;
    }
    else s

unfoldable pub on_event : SocketEvent → Probe → Probe
unfolding on_open on_message on_close
on_event (opened now) s = on_open now s
on_event ticked s = s
on_event (received f) s = on_message f s
on_event errored s = s
on_event (closed now) s = on_close now s

unfoldable pub run_events : List SocketEvent → Probe → Probe
unfolding on_event
run_events [] s = s
run_events (e ∷ es) s = run_events es (on_event e s)

-- !res || res.status !== 101
abbrev pub is_refused : Option ℕ → Bool
is_refused none = true
is_refused (some status) = not (eqb status 101)

-- What happens in one connection, and the status that ws.connect returns, if any.
pub record Iteration : Type 0 where
  pub events : List SocketEvent
  pub status : Option ℕ

-- The samples of one iteration; its variables start anew in the next one.
unfoldable pub iteration : Iteration → List Sample
unfolding run_events
iteration it =
    let s = run_events it.events start in
    (if is_refused it.status then add_sample "reconnect_success_rate" (pos 0) s else s).samples

abbrev pub samples_of : List Iteration → List Sample
samples_of [] = []
samples_of (it ∷ its) = iteration it ++ samples_of its
