-- ===== src/Scripts/LoadTests/Failover/Lost.antt =====
-- What failover_test.js counts as lost.
use tinytelegram.Base.{
  ℕ, suc, ◌+◌, ◌-◌, ◌≤◌, ◌<◌, ◌≡◌, refl, ◌∙◌, String, true, false, none, some, List, [], ◌∷◌, ◌++◌,
  map, ◌==◌, ltb, ◌&&◌, arith, length, Bool-cases, inl, inr, if◌then◌else◌,
}
use tinytelegram.Base.Int.{pos, pos_part}
use tinytelegram.Proto.{ChatMessage}
use tinytelegram.Scripts.LoadTests.{Frame, Sample, sample, SocketEvent, received, gap}
use tinytelegram.Scripts.LoadTests.Failover.{
  Probe, start, count_lost, on_ack, on_incoming, on_message, on_event, run_events,
}

-- The sum of a counter.
abbrev pub counted : String → List Sample → ℕ
counted metric [] = 0
counted metric (s ∷ samples) =
    (if s.metric == metric then pos_part s.value else 0) + counted metric samples

abbrev pub lost : List Sample → ℕ
lost samples = counted "messages_lost_during_failover" samples

counted-append :
    (metric : String) (xs ys : List Sample)
    → counted metric (xs ++ ys) ≡ counted metric xs + counted metric ys
counted-append metric [] ys = omega arith
counted-append metric (x ∷ xs) ys = omega (arith, counted-append metric xs ys)

-- A frame that carries one number of the user: an acknowledgement, or a message for the user.
pub data Carries (f : Frame) (n : ℕ) : Type 0 where
  acks : (f.type == "ack") ≡ true → f.message ≡ none → f.sender_pts ≡ n → Carries f n
  delivers :
      (msg : ChatMessage)
      → (f.type == "ack") ≡ false
      → f.message ≡ some msg
      → f.receiver_pts ≡ n
      → Carries f n

lost-count_lost :
    (n : ℕ) (s : Probe)
    → s.last_pts < n
    → 1 ≤ s.last_pts
    → lost (count_lost n s).samples + suc s.last_pts ≡ lost s.samples + n
unfolding count_lost gap
lost-count_lost n s above counting =
    let size = n - s.last_pts - 1 in
    let added =
      counted-append "messages_lost_during_failover" s.samples
        (sample "messages_lost_during_failover" (pos size) ∷ []) in
    elim (Bool-cases (ltb 0 s.last_pts && ltb (suc s.last_pts) n)) [
      | inl e ↦ rw (e, added) (ground arith)
      | inr e ↦ rw e (ground arith)
    ]

count_lost-first : (n : ℕ) (s : Probe) → s.last_pts ≡ 0 → (count_lost n s).samples ≡ s.samples
unfolding count_lost
count_lost-first n s h = rw h refl

on_incoming-last :
    (n : ℕ) (s : Probe)
    → s.last_pts < n
    → ((on_incoming n s).last_pts ≡ n) × ((on_incoming n s).samples ≡ (count_lost n s).samples)
unfolding on_incoming
on_incoming-last n s above =
    let positive : ltb 0 n ≡ true = ground arith in rw positive (omega arith, refl)

-- One such frame, with a number above the last one.
on_message-Carries :
    (f : Frame) (n : ℕ) (s : Probe)
    → Carries f n
    → s.last_pts < n
    → ((on_message (some f) s).last_pts ≡ n)
      × ((on_message (some f) s).samples ≡ (count_lost n s).samples)
unfolding on_message on_ack
on_message-Carries f n s (acks is_ack no_message number) above =
    let positive : ltb 0 f.sender_pts ≡ true = ground (arith, number) in
    rw (is_ack, positive, no_message, number) (refl, refl)
on_message-Carries f n s (delivers msg no_ack message number) above =
    let positive : ltb 0 n ≡ true = ground arith in
    rw (no_ack, message, number, positive) (on_incoming-last n s above)

-- Frames with rising numbers, all above the first argument.
abbrev pub Rising : ℕ → List (Frame × ℕ) → Type 0
Rising p [] = Unit
Rising p ((f, n) ∷ rest) = Carries f n × (p < n) × Rising n rest

abbrev pub events_of : List (Frame × ℕ) → List SocketEvent
events_of fs = map (λ (f, n). received (some f)) fs

abbrev pub final : ℕ → List (Frame × ℕ) → ℕ
final p [] = p
final p ((f, n) ∷ rest) = final n rest

run-lost :
    (fs : List (Frame × ℕ)) (s : Probe)
    → 1 ≤ s.last_pts
    → Rising s.last_pts fs
    → lost (run_events (events_of fs) s).samples + length fs + s.last_pts
      ≡ lost s.samples + final s.last_pts fs
unfolding run_events on_event
run-lost [] s counting rising = omega arith
run-lost ((f, n) ∷ rest) s counting rising =
    let s' = on_message (some f) s in
    let (last, same) = on_message-Carries f n s rising.0 rising.1 in
    let one = lost-count_lost n s rising.1 counting in
    let more = run-lost rest s' (rw last (omega (arith, rising.1))) (rw last rising.2) in
    let more' = rw (last, same) at more in omega (arith, one, more')

-- After any frames with rising numbers of the user, what the test counts as lost are the numbers
-- between the first one and the last one that came in no frame.
pub lost_exact :
    (f : Frame) (n : ℕ) (rest : List (Frame × ℕ))
    → Rising 0 ((f, n) ∷ rest)
    → lost (run_events (events_of ((f, n) ∷ rest)) start).samples + length rest + n ≡ final n rest
unfolding run_events on_event
lost_exact f n rest rising =
    let s' = on_message (some f) start in
    let (last, same) = on_message-Carries f n start rising.0 rising.1 in
    let nothing = same ∙ count_lost-first n start refl in
    let more = run-lost rest s' (rw last (omega (arith, rising.1))) (rw last rising.2) in
    let more' = rw (last, nothing) at more in omega (arith, more')
