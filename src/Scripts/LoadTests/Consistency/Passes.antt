-- ===== src/Scripts/LoadTests/Consistency/Passes.antt =====
-- The figure of plot_consistency.py for a run of consistency_test_simple.js.
use Prim.Native.String.{◌++◌ as ◌⊕◌}
use tinytelegram.Base.{
  All-append, ℕ, ◌≡◌, refl, String, false, Option, none, some, List, [], ◌∷◌, ◌++◌, ◌==◌, ◌&&◌, ltb,
  suc, All, inl, inr, Bool-cases,
}
use tinytelegram.Base.Exec.{ok}
use tinytelegram.Proto.{ChatMessage}
use tinytelegram.Scripts.Python.{Floats, Json}
use tinytelegram.Scripts.Points.Total.{collect-nothing, count-zero_iff}
use tinytelegram.Scripts.Consistency.Summary.{
  Findings, read_findings, verdict_pass, no_gaps, gaps_part, no_duplicates, duplicates_part, report,
  summary_text,
}
use tinytelegram.Scripts.Consistency.Verdict.{findings_run, findings_total, verdict_exact}
use tinytelegram.Scripts.LoadTests.{
  Frame, Sample, SocketEvent, opened, ticked, received, errored, closed,
}
use tinytelegram.Scripts.LoadTests.Output.{Output, Written, NoPoint-Written, IsReadable-Written}
use tinytelegram.Scripts.LoadTests.Consistency.{
  Probe, record_sample, on_ack, count_message, on_message, on_event, run_events, iteration,
}

-- The samples of any number of iterations.
abbrev pub samples_of : List (List SocketEvent) → List Sample
samples_of [] = []
samples_of (es ∷ iterations) = iteration es ++ samples_of iterations

-- A metric that the test does not have.
abbrev IsForeign : String → Type 0
IsForeign metric =
    (("pts_gaps_detected" == metric) ≡ false)
    × (("messages_received" == metric) ≡ false)
    × (("messages_sent" == metric) ≡ false)

module _ (metric : String) (foreign : IsForeign metric) where
  abbrev IsOther : Sample → Type 0
  IsOther s = (s.metric == metric) ≡ false

  abbrev Silent : List Sample → Type 0
  Silent samples = All IsOther samples

  ack-Silent : (pts : ℕ) (s : Probe) → Silent s.samples → Silent (on_ack pts s).samples
  unfolding on_ack
  ack-Silent pts s h = elim (Bool-cases (ltb (suc s.local_pts) pts)) [
    | inl e ↦ rw e (All-append IsOther s.samples _ h (foreign.0, tt))
    | inr e ↦ rw e h
  ]

  count-Silent :
      (m : Option ChatMessage) (s : Probe) → Silent s.samples → Silent (count_message m s).samples
  count-Silent none s h = h
  count-Silent (some msg) s h = All-append IsOther s.samples _ h (foreign.1, tt)

  message-Silent :
      (f : Option Frame) (s : Probe) → Silent s.samples → Silent (on_message f s).samples
  unfolding on_message
  message-Silent none s h = h
  message-Silent (some f) s h = elim (Bool-cases (f.type == "ack" && ltb 0 f.sender_pts)) [
    | inl e ↦ rw e (count-Silent f.message _ (ack-Silent f.sender_pts s h))
    | inr e ↦ rw e (count-Silent f.message s h)
  ]

  run-Silent :
      (es : List SocketEvent) (s : Probe) → Silent s.samples → Silent (run_events es s).samples
  unfolding run_events on_event
  run-Silent [] s h = h
  run-Silent (opened now ∷ es) s h = run-Silent es s h
  run-Silent (ticked ∷ es) s h =
      run-Silent es (record_sample "messages_sent" s)
        (All-append IsOther s.samples _ h (foreign.2, tt))
  run-Silent (received f ∷ es) s h = run-Silent es (on_message f s) (message-Silent f s h)
  run-Silent (errored ∷ es) s h = run-Silent es s h
  run-Silent (closed now ∷ es) s h = run-Silent es s h

  samples-Silent : (iterations : List (List SocketEvent)) → Silent (samples_of iterations)
  unfolding iteration
  samples-Silent [] = tt
  samples-Silent (es ∷ iterations) =
      All-append IsOther (iteration es) (samples_of iterations) (run-Silent es _ tt)
        (samples-Silent iterations)

-- The metrics that decide what the summary says.
abbrev pub plotted : List String
plotted = "pts_gap_size" ∷ "pts_order_violations" ∷ "duplicate_messages" ∷ []

-- Whatever the connections of a run receive, nothing at all included, the summary can be made, ends
-- with the passing verdict, and says that there are no gaps and no duplicates.
pub simple_passes :
    (F : Floats) (O : Output F.Num) (iterations : List (List SocketEvent)) (es : List (Json F.Num))
    → All (Written O (samples_of iterations) plotted) es
    → (f : Findings F.Num) × (read_findings es ≡ ok f)
      × (summary_text F f ≡ report F f ⊕ verdict_pass)
      × (gaps_part F f.gaps_detected f.gap_sizes ≡ no_gaps)
      × (f.duplicates ≡ 0)
      × (duplicates_part f.duplicates ≡ no_duplicates)
unfolding gaps_part duplicates_part
simple_passes F O iterations es h =
    let samples = samples_of iterations in
    let size = samples-Silent "pts_gap_size" (refl, refl, refl) iterations in
    let violation = samples-Silent "pts_order_violations" (refl, refl, refl) iterations in
    let duplicate = samples-Silent "duplicate_messages" (refl, refl, refl) iterations in
    let (f, found) =
      findings_total es
        (IsReadable-Written O samples plotted "pts_gap_size" es size (inl refl) h) in
    let (sizes, _, _, dups) = findings_run es f found in
    let none_found = (count-zero_iff "duplicate_messages" es f.duplicates dups).1 (
      NoPoint-Written O samples plotted "duplicate_messages" es duplicate (inr (inr (inl refl)))
        h) in
    (
      f,
      found,
      (verdict_exact F es f found).1 (
          NoPoint-Written O samples plotted "pts_order_violations" es violation (inr (inl refl)) h),
      rw
          (collect-nothing "pts_gap_size" es f.gap_sizes sizes
            (NoPoint-Written O samples plotted "pts_gap_size" es size (inl refl) h))
          refl,
      none_found,
      rw none_found refl,
    )
