-- ===== src/Scripts/LoadTests/Failover/Unmeasured.antt =====
-- The figure of plot_failover.py for a run of failover_test.js.
use tinytelegram.Base.{
  All-append, ℕ, ◌≡◌, refl, String, true, false, not, Option, none, some, List, [], ◌∷◌, ◌++◌, ◌==◌,
  ◌&&◌, ltb, suc, All, inl, inr, Bool-cases, map,
}
use tinytelegram.Base.Exec.{ok}
use tinytelegram.Proto.{ChatMessage}
use tinytelegram.Scripts.Python.{Floats, Json, parsed, load_lines}
use tinytelegram.Scripts.Points.Total.{collect-nothing, collect-total}
use tinytelegram.Scripts.Failover.Draw.{
  FailoverRow, reconnect_calls, k6_calls, opening, closing, from_metrics, plot_failover_results,
}
use tinytelegram.Scripts.LoadTests.{
  Frame, Sample, SocketEvent, opened, ticked, received, errored, closed,
}
use tinytelegram.Scripts.LoadTests.Output.{Output, Written, NoPoint-Written, IsReadable-Written}
use tinytelegram.Scripts.LoadTests.Failover.{
  Probe, start, on_open, count_lost, on_ack, on_incoming, either_pts, incoming, on_message,
  on_close, on_event, run_events, is_refused, Iteration, iteration, samples_of,
}

-- k6 opens a connection at most once, before anything else happens in it.
abbrev pub NeverOpens : List SocketEvent → Type 0
NeverOpens [] = Unit
NeverOpens (opened now ∷ es) = ⊥
NeverOpens (ticked ∷ es) = NeverOpens es
NeverOpens (received f ∷ es) = NeverOpens es
NeverOpens (errored ∷ es) = NeverOpens es
NeverOpens (closed now ∷ es) = NeverOpens es

abbrev pub OpensOnce : List SocketEvent → Type 0
OpensOnce (opened now ∷ es) = NeverOpens es
OpensOnce es = NeverOpens es

abbrev time_metric : String
time_metric = "reconnect_time_ms"

abbrev IsOther : Sample → Type 0
IsOther s = (s.metric == time_metric) ≡ false

abbrev Untimed : List Sample → Type 0
Untimed samples = All IsOther samples

lost-Untimed : (pts : ℕ) (s : Probe) → Untimed s.samples → Untimed (count_lost pts s).samples
unfolding count_lost
lost-Untimed pts s h = elim (Bool-cases (ltb 0 s.last_pts && ltb (suc s.last_pts) pts)) [
  | inl e ↦ rw e (All-append IsOther s.samples _ h (refl, tt))
  | inr e ↦ rw e h
]

incoming-Untimed :
    (m : Option ChatMessage) (pts : ℕ) (s : Probe)
    → Untimed s.samples
    → Untimed (incoming m pts s).samples
unfolding on_incoming
incoming-Untimed none pts s h = h
incoming-Untimed (some msg) pts s h = elim (Bool-cases (ltb 0 pts)) [
  | inl e ↦ rw e (lost-Untimed pts s h)
  | inr e ↦ rw e h
]

message-Untimed :
    (f : Option Frame) (s : Probe) → Untimed s.samples → Untimed (on_message f s).samples
unfolding on_message on_ack
message-Untimed none s h = h
message-Untimed (some f) s h = elim (Bool-cases (f.type == "ack" && ltb 0 f.sender_pts)) [
  | inl e ↦ rw e (
      incoming-Untimed f.message (either_pts f) (on_ack f.sender_pts s)
        (lost-Untimed f.sender_pts s h))
  | inr e ↦ rw e (incoming-Untimed f.message (either_pts f) s h)
]

close-Untimed : (now : ℕ) (s : Probe) → Untimed s.samples → Untimed (on_close now s).samples
unfolding on_close
close-Untimed now s h = elim (Bool-cases (s.connection_established && not s.connection_dropped)) [
  | inl e ↦ rw e (All-append IsOther s.samples _ h (refl, tt))
  | inr e ↦ rw e h
]

run-Untimed :
    (es : List SocketEvent) (s : Probe)
    → NeverOpens es
    → Untimed s.samples
    → Untimed (run_events es s).samples
unfolding run_events on_event
run-Untimed [] s never h = h
run-Untimed (opened now ∷ es) s never h = absurd never
run-Untimed (ticked ∷ es) s never h = run-Untimed es s never h
run-Untimed (received f ∷ es) s never h =
    run-Untimed es (on_message f s) never (message-Untimed f s h)
run-Untimed (errored ∷ es) s never h = run-Untimed es s never h
run-Untimed (closed now ∷ es) s never h =
    run-Untimed es (on_close now s) never (close-Untimed now s h)

start-Untimed : (es : List SocketEvent) → OpensOnce es → Untimed (run_events es start).samples
unfolding run_events on_event on_open
start-Untimed [] once = tt
start-Untimed (opened now ∷ es) once =
    run-Untimed es (record start { connection_established = true }) once tt
start-Untimed (ticked ∷ es) once = run-Untimed (ticked ∷ es) start once tt
start-Untimed (received f ∷ es) once = run-Untimed (received f ∷ es) start once tt
start-Untimed (errored ∷ es) once = run-Untimed (errored ∷ es) start once tt
start-Untimed (closed now ∷ es) once = run-Untimed (closed now ∷ es) start once tt

iteration-Untimed : (it : Iteration) → OpensOnce it.events → Untimed (iteration it)
unfolding iteration
iteration-Untimed it once =
    let s = run_events it.events start in
    let h = start-Untimed it.events once in
    elim (Bool-cases (is_refused it.status)) [
      | inl e ↦ rw (iteration, e) (All-append IsOther s.samples _ h (refl, tt))
      | inr e ↦ rw (iteration, e) h
    ]

samples-Untimed :
    (its : List Iteration)
    → All (λ (it : Iteration). OpensOnce it.events) its
    → Untimed (samples_of its)
samples-Untimed [] once = tt
samples-Untimed (it ∷ its) once =
    All-append IsOther (iteration it) (samples_of its) (iteration-Untimed it once.0)
      (samples-Untimed its once.1)

load-parsed : {Num : Type 0} (es : List (Json Num)) → load_lines (map parsed es) ≡ ok es
unfolding load_lines
load-parsed [] = refl
load-parsed (e ∷ es) = rw (load-parsed es) refl

-- If every connection of a run opens at most once, first of all, then whatever else happens, drops
-- included, plot_failover.py draws nothing from the output of k6: no reconnection was timed.
pub never_measured :
    (F : Floats) (to_numeric : String → Option F.Num) (O : Output F.Num)
    (metrics : Option (List FailoverRow)) (its : List Iteration) (es : List (Json F.Num))
    → All (λ (it : Iteration). OpensOnce it.events) its
    → All (Written O (samples_of its) (time_metric ∷ [])) es
    → plot_failover_results F to_numeric metrics (some (map parsed es))
      ≡ ok (opening F to_numeric ++ (from_metrics F to_numeric metrics ++ closing F to_numeric))
unfolding plot_failover_results k6_calls reconnect_calls
never_measured F to_numeric O metrics its es once h =
    let samples = samples_of its in
    let untimed = samples-Untimed its once in
    let names = time_metric ∷ [] in
    let (xs, collected) =
      collect-total time_metric es
        (IsReadable-Written O samples names time_metric es untimed (inl refl) h) in
    let none_timed =
      collect-nothing time_metric es xs collected
        (NoPoint-Written O samples names time_metric es untimed (inl refl) h) in
    rw (plot_failover_results, k6_calls, load-parsed es, collected, none_timed) refl
