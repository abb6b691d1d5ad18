-- ===== src/Scripts/LoadTests/Tests.antt =====
-- The load tests at concrete inputs.
use Prim.Native.String.{◌++◌ as ◌⊕◌}
use tinytelegram.Base.{
  ℕ, ◌+◌, ◌≡◌, refl, inl, inr, String, none, some, List, [], ◌∷◌, ◌++◌, map, ◌==◌, arith, All,
}
use tinytelegram.Base.Exec.{ok}
use tinytelegram.Base.Int.{pos, pos_part}
use tinytelegram.Proto.{ChatMessage}
use tinytelegram.Scripts.Python.{Json, Members, number, string, object, end, member, parsed}
use tinytelegram.Scripts.Points.{is_point, point_value}
use tinytelegram.Scripts.Consistency.Summary.{
  Findings, read_findings, verdict_pass, no_gaps, no_duplicates, duplicates_part, gaps_part, report,
  summary_text,
}
use tinytelegram.Scripts.Failover.Draw.{opening, closing, plot_failover_results}
use tinytelegram.Scripts.Sim.{whole}
use tinytelegram.Scripts.LoadTests.{
  Frame, Sample, sample, SocketEvent, opened, ticked, received, closed, gap,
}
use tinytelegram.Scripts.LoadTests.Output.{Output, Written}
use tinytelegram.Scripts.LoadTests.Consistency as Simple
use tinytelegram.Scripts.LoadTests.Consistency.Passes.{samples_of, plotted, simple_passes}
use tinytelegram.Scripts.LoadTests.Failover.{
  start, count_lost, on_open, on_ack, on_incoming, on_message, on_close, on_event, run_events,
  Iteration, iteration, samples_of as failed_samples,
}
use tinytelegram.Scripts.LoadTests.Failover.Unmeasured.{never_measured}
use tinytelegram.Scripts.LoadTests.Failover.Lost.{lost, acks, delivers, events_of, lost_exact}

abbrev entry_of : Sample → Members ℕ
entry_of s = member "type" (string "Point") (
    member "metric" (string s.metric)
      (member "data" (object (member "value" (number (pos_part s.value)) end)) end))

entry_of-point : (s : Sample) (m : String) → is_point m (object (entry_of s)) ≡ ok (s.metric == m)
unfolding is_point
entry_of-point s m = refl

entry_of-value : (s : Sample) → (v : ℕ) × (point_value (object (entry_of s)) ≡ ok v)
unfolding point_value
entry_of-value s = (pos_part s.value, refl)

abbrev k6 : Output ℕ
k6 = record { entry = entry_of; entry_point = entry_of-point; entry_value = entry_of-value }

abbrev ack : ℕ → Frame
ack n = record { type = "ack"; sender_pts = n; receiver_pts = 0; message = none }

abbrev hello : ChatMessage
hello = record { sender_id = "a"; receiver_id = "b"; content = "hi"; client_timestamp = 0 }

abbrev message : ℕ → Frame
message n = record { type = ""; sender_pts = 3; receiver_pts = n; message = some hello }

-- Two acknowledgements with a message between them, whose number the test takes for a gap.
abbrev one_user : List SocketEvent
one_user =
    opened 1
    ∷ ticked
    ∷ received (some (ack 1))
    ∷ received (some (message 2))
    ∷ ticked
    ∷ received (some (ack 3))
    ∷ closed 9
    ∷ []

one_user_samples :
    Simple.iteration one_user
    ≡ sample "messages_sent" (pos 1)
      ∷ sample "messages_received" (pos 1)
      ∷ sample "messages_sent" (pos 1)
      ∷ sample "pts_gaps_detected" (pos 1)
      ∷ []
unfolding Simple.iteration Simple.run_events Simple.on_event Simple.on_message Simple.on_ack
one_user_samples = refl

-- An entry that k6 writes on its own.
abbrev vus : Members ℕ
vus = entry_of (sample "vus" (pos 50))

abbrev sent : Members ℕ
sent = entry_of (sample "messages_sent" (pos 1))

abbrev simple_run : List (Json ℕ)
simple_run = object sent ∷ object vus ∷ []

simple_run-Written : All (Written k6 (samples_of (one_user ∷ [])) plotted) simple_run
unfolding Simple.iteration Simple.run_events Simple.on_event Simple.on_message Simple.on_ack
    is_point
simple_run-Written = (
  (sent, refl, inl (sample "messages_sent" (pos 1), inl refl, refl)),
  ((vus, refl, inr (refl, (refl, (refl, tt)))), tt),
)

simple_passes_example :
    (f : Findings ℕ) × (read_findings simple_run ≡ ok f)
    × (summary_text whole f ≡ report whole f ⊕ verdict_pass)
    × (gaps_part whole f.gaps_detected f.gap_sizes ≡ no_gaps)
    × (f.duplicates ≡ 0)
    × (duplicates_part f.duplicates ≡ no_duplicates)
simple_passes_example = simple_passes whole k6 (one_user ∷ []) simple_run simple_run-Written

-- A connection that ends after one acknowledgement.
abbrev dropped : Iteration
dropped = record { events = opened 1 ∷ received (some (ack 1)) ∷ closed 9 ∷ []; status = some 101 }

dropped_samples : iteration dropped ≡ sample "connection_drops" (pos 1) ∷ []
unfolding iteration run_events on_event on_open on_message on_ack count_lost on_close
dropped_samples = refl

abbrev drop_entry : Members ℕ
drop_entry = entry_of (sample "connection_drops" (pos 1))

drop-Written :
    All
      (Written k6 (failed_samples (dropped ∷ [])) ("reconnect_time_ms" ∷ []))
      (object drop_entry ∷ [])
unfolding iteration run_events on_event on_open on_message on_ack count_lost on_close
drop-Written = ((drop_entry, refl, inl (sample "connection_drops" (pos 1), inl refl, refl)), tt)

never_measured_example :
    plot_failover_results whole (λ s. none) none (some (map parsed (object drop_entry ∷ [])))
    ≡ ok (opening whole (λ s. none) ++ ([] ++ closing whole (λ s. none)))
never_measured_example =
    never_measured whole (λ s. none) k6 none (dropped ∷ []) (object drop_entry ∷ []) (tt, tt)
      drop-Written

-- Numbers 4, 5 and 8: 6 and 7 are counted as lost.
abbrev frames : List (Frame × ℕ)
frames = (message 5, 5) ∷ (ack 8, 8) ∷ []

lost_exact_example : lost (run_events (events_of ((ack 4, 4) ∷ frames)) start).samples + 2 + 4 ≡ 8
lost_exact_example = lost_exact (ack 4) 4 frames (
  acks refl refl refl,
  omega arith,
  (delivers hello refl refl refl, omega arith, (acks refl refl refl, omega arith, tt)),
)

-- A message that overtakes an acknowledgement: two numbers count as lost, and none is.
overtaken_lost :
    lost
      (run_events
        (received (some (ack 1))
          ∷ received (some (message 3))
          ∷ received (some (ack 2))
          ∷ received (some (message 4))
          ∷ [])
        start).samples
    ≡ 2
unfolding run_events on_event on_message on_ack on_incoming count_lost gap
overtaken_lost = refl
