-- ===== src/Gateway/Expiry/Tests.antt =====
-- The theorem about the life of presence keys at a concrete input.
use tinytelegram.Base.{
  ℕ, ◌+◌, ◌≡◌, refl, arith, String, Option, none, some, List, [], ◌∷◌, Bool, true, false, inl, inr,
  ◌==◌, eq_refl, ltb, if◌then◌else◌,
}
use tinytelegram.Base.Exec.{ok, err, Exec}
use tinytelegram.MessageService.Keys.{presence_key}
use tinytelegram.Gateway.Session.{Services, register_user}
use tinytelegram.Gateway.Expiry.{Expiring, beats, Lasts, beat, presence_kept}

-- What each key has after some seconds, and which of the next SETs succeed; after those, all do.
record Keys : Type 0 where
  text : String → ℕ → Option String
  plan : List Bool

abbrev written_for : String → String → ℕ → Keys → String → ℕ → Option String
written_for key v ttl s j m = if j == key then if ltb m ttl then some v else none else s.text j m

abbrev set_by : List Bool → String → String → ℕ → Exec Keys (Unit {0})
set_by [] key v ttl s = (ok tt, record { text = written_for key v ttl s; plan = [] })
set_by (true ∷ plan) key v ttl s = (ok tt, record { text = written_for key v ttl s; plan = plan })
set_by (false ∷ plan) key v ttl s = (err "EOF", record { text = s.text; plan = plan })

abbrev services : Services
services = record {
  State = Keys;
  set_key = λ key v ttl s. set_by s.plan key v ttl s;
  del_key = λ key s. (err "EOF", s);
  get_key = λ key s. (err "redis: nil", s);
  persist_message = λ msg s. (err "unavailable", s);
  write_json = λ ack s. (ok tt, s);
  spawn_peer_delivery = λ target m s. s;
  unmarshal = λ raw. err raw;
  unix_milli = λ s. 0;
}

text_is_set :
    (plan : List Bool) (key v : String) (ttl : ℕ) (s : Keys) (m : ℕ)
    → (set_by plan key v ttl s).0 ≡ ok tt
    → (set_by plan key v ttl s).1.text key m ≡ (if ltb m ttl then some v else none)
text_is_set [] key v ttl s m h = rw (eq_refl key) refl
text_is_set (true ∷ plan) key v ttl s m h = rw (eq_refl key) refl
text_is_set (false ∷ plan) key v ttl s m h = absurd (ground arith)

failed_leaves :
    (plan : List Bool) (key v e : String) (ttl : ℕ) (s : Keys) (m : ℕ)
    → (set_by plan key v ttl s).0 ≡ err e
    → (set_by plan key v ttl s).1.text key m ≡ s.text key m
failed_leaves [] key v e ttl s m h = absurd (ground arith)
failed_leaves (true ∷ plan) key v e ttl s m h = absurd (ground arith)
failed_leaves (false ∷ plan) key v e ttl s m h = refl

abbrev expiring : Expiring services
expiring = record {
  text = λ s key m. s.text key m;
  after = λ n s. record { text = λ key m. s.text key (n + m); plan = s.plan };
  after_text = λ n s key m. refl;
  set_text = λ key v ttl s h m. text_is_set s.plan key v ttl s m h;
  fail_text = λ key v e ttl s h. inl (λ m. failed_leaves s.plan key v e ttl s m h);
}

-- Of the four ticks the second and the fourth fail.
abbrev start : Keys
start = record { text = λ key m. none; plan = true ∷ true ∷ false ∷ true ∷ false ∷ [] }

-- The ticker starts a second later.
abbrev registered : Keys
registered = expiring.after 1 (register_user services "bob" "gw1" start).1

abbrev delays : List ℕ
delays = 0 ∷ 3 ∷ 3 ∷ 1 ∷ []

start-Lasts : Lasts services expiring "bob" "gw1" 0 0 delays registered
unfolding register_user beat
start-Lasts = inl (refl, inr (refl, ("EOF", refl), inl (refl, inr (refl, ("EOF", refl), tt))))

-- Seven seconds after the fourth tick's SET failed, and eight after its tick: the SET of the fifth
-- tick takes effect three seconds after that tick.
presence_kept_example :
    expiring.text (beats services expiring "bob" "gw1" 0 delays registered) (presence_key "bob") 7
    ≡ some "gw1"
unfolding register_user
presence_kept_example =
    presence_kept services expiring "bob" "gw1" start 1 delays 3 7 refl
      (omega arith, (omega arith, (omega arith, (omega arith, tt)))) (omega arith) start-Lasts
      (omega arith)
