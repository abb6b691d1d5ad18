-- ===== src/MessageService/Concurrent/Tests.antt =====
-- The theorems about concurrent calls at concrete inputs.
use tinytelegram.Base.{
  In, ℕ, ◌≤◌, ◌<◌, ◌≡◌, ◌⊎◌, refl, arith, true, [], ◌∷◌, All, length, eqb, if◌then◌else◌,
}
use tinytelegram.Proto.{PersistedMessage}
use tinytelegram.MessageService.Keys.{pts_key}
use tinytelegram.MessageService.Schema.{is_fresh, same_id, admits}
use tinytelegram.MessageService.DiffQuery.{
  DiffRow, pts_for, is_party, is_missed, project, place, order_by_pts, diff_query,
}
use tinytelegram.MessageService.Persist.{World, reply, persisted, persist_message, after_insert}
use tinytelegram.MessageService.Sim.{redis, postgres}
use tinytelegram.MessageService.Concurrent.{
  granted, finished, Request, advance, System, pick, Reach, here, next, picks, start,
}
use tinytelegram.MessageService.Concurrent.Alone.{four_steps, four_steps-persist}
use tinytelegram.MessageService.Concurrent.Admitted.{granted_admitted}
use tinytelegram.MessageService.Concurrent.Overtaken.{row, page, IsAbsent, overtaken_missed}

-- alice and carol write to bob.
abbrev request : ℕ → Request
request i = record {
  msg_id = if eqb i 0 then "m0" else "m1";
  now = 10;
  msg = record {
    sender_id = if eqb i 0 then "alice" else "carol";
    receiver_id = "bob";
    content = "hello";
    client_timestamp = 1;
  };
}

abbrev empty : World redis postgres
empty = record { conn = record { counts = λ k. 0; replicas = 1 }; db = [] }

abbrev turn : ℕ → System redis postgres → System redis postgres
turn = pick redis postgres request

-- Both calls come to their INSERT, alice's with the number 1 and carol's with the number 2.
abbrev both_granted : System redis postgres
both_granted = turn 1 (turn 0 (turn 1 (turn 0 (turn 1 (turn 0 (start redis postgres empty))))))

abbrev then_pick :
    {s : System redis postgres} (i : ℕ)
    → Reach redis postgres request (start redis postgres empty) s
    → Reach redis postgres request (start redis postgres empty) (turn i s)
then_pick i r = next r (picks i refl)

both_granted_reached : Reach redis postgres request (start redis postgres empty) both_granted
both_granted_reached =
    then_pick 1 (then_pick 0 (then_pick 1 (then_pick 0 (then_pick 1 (then_pick 0 here)))))

alice_granted : both_granted.phase 0 ≡ granted 1 1
unfolding pick advance pts_key
alice_granted = refl

carol_granted : both_granted.phase 1 ≡ granted 2 1
unfolding pick advance pts_key
carol_granted = refl

one_call_alone : four_steps redis postgres (request 0) empty ≡ (
  finished (persist_message redis postgres "m0" 10 (request 0).msg empty).0,
  (persist_message redis postgres "m0" 10 (request 0).msg empty).1,
)
one_call_alone = four_steps-persist redis postgres (request 0) empty

new_id :
    is_fresh same_id
      (row redis postgres request 1 2 1 (turn 0 both_granted))
      (turn 0 both_granted).world.db
    ≡ true
unfolding pick advance pts_key is_fresh admits after_insert
new_id = refl

still_granted : (turn 0 both_granted).phase 1 ≡ granted 2 1
unfolding pick advance pts_key
still_granted = refl

granted_admitted_example :
    admits (turn 0 both_granted).world.db (row redis postgres request 1 2 1 (turn 0 both_granted))
    ≡ true
granted_admitted_example =
    granted_admitted redis postgres request empty (turn 0 both_granted) 1 2 1 refl
      (then_pick 0 both_granted_reached) still_granted new_id

abbrev carols : PersistedMessage
carols = persisted "m1" 10 (request 1).msg 2 1

abbrev alices : PersistedMessage
alices = persisted "m0" 10 (request 0).msg 1 1

carol_done : (turn 1 both_granted).phase 1 ≡ finished (reply carols)
unfolding pick advance pts_key is_fresh admits after_insert
carol_done = refl

alice_done : (turn 0 (turn 1 both_granted)).phase 0 ≡ finished (reply alices)
unfolding pick advance pts_key is_fresh admits after_insert
alice_done = refl

overtaken_missed_example :
    let s₁ = turn 1 both_granted in
    let s₂ = turn 0 s₁ in
    (alices.receiver_pts < carols.receiver_pts)
    × ((c limit : ℕ) → IsAbsent "m0" (page redis postgres request "bob" c limit s₁))
    × ((c limit : ℕ)
        → c < carols.receiver_pts
        → In
            (project "bob" (row redis postgres request 1 2 1 both_granted))
            (page redis postgres request "bob" c limit s₁)
          ⊎ ((length (page redis postgres request "bob" c limit s₁) ≡ limit)
              × All
                  (λ (d : DiffRow). d.pts ≤ carols.receiver_pts)
                  (page redis postgres request "bob" c limit s₁)))
    × ((s₃ : System redis postgres)
        → Reach redis postgres request s₂ s₃
        → In (row redis postgres request 0 1 1 s₁) s₃.world.db
          × ((c limit : ℕ)
              → carols.receiver_pts ≤ c
              → IsAbsent "m0" (page redis postgres request "bob" c limit s₃)))
overtaken_missed_example =
    overtaken_missed redis postgres request both_granted 0 1 1 1 2 1 alices carols
      (λ h. absurd (omega arith)) alice_granted carol_granted (omega arith) refl carol_done
      alice_done

-- bob has synced to carol's message and never gets alice's.
carols_page :
    page redis postgres request "bob" 0 10 (turn 1 both_granted)
    ≡ project "bob" (row redis postgres request 1 2 1 both_granted) ∷ []
unfolding pick advance pts_key is_fresh admits after_insert diff_query is_missed is_party pts_for
    order_by_pts place project
carols_page = refl

empty_page : page redis postgres request "bob" 2 10 (turn 0 (turn 1 both_granted)) ≡ []
unfolding pick advance pts_key is_fresh admits after_insert diff_query is_missed is_party pts_for
    order_by_pts
empty_page = refl
