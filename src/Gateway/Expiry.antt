-- ===== src/Gateway/Expiry.antt =====
-- gateway/store/redis.go: how long a presence key lives between two settings of it.
mod Tests
use tinytelegram.Base.{
  ℕ, zero, suc, ◌+◌, ◌*◌, ◌≤◌, ◌<◌, ◌≡◌, ◌≢◌, refl, arith, String, Bool, true, false, Option, none,
  some, List, [], ◌∷◌, inl, inr, ◌⊎◌, ltb, if◌then◌else◌, All, ◌∙◌, ◌-◌,
}
use tinytelegram.Base.Exec.{Result, ok, err}
use tinytelegram.MessageService.Keys.{presence_key}
use tinytelegram.Gateway.Session.{Services, register_user, presence_ttl}

abbrev pub heartbeat_interval : ℕ
heartbeat_interval = 5

-- Redis over time, in seconds: a key that was set is there until its time to live is over, and a SET that
-- fails leaves it as it was, or its reply is lost and the key is set. `text` is what a key has after some
-- seconds, if no command comes in between.
pub record Expiring (S : Services) : Type 0 where
  pub text : S.State → String → ℕ → Option String
  pub after : ℕ → S.State → S.State
  pub after_text :
      (n : ℕ) (s : S.State) (key : String) (m : ℕ) → text (after n s) key m ≡ text s key (n + m)
  pub set_text :
      (key v : String) (ttl : ℕ) (s : S.State)
      → (S.set_key key v ttl s).0 ≡ ok tt
      → (m : ℕ) → text (S.set_key key v ttl s).1 key m ≡ (if ltb m ttl then some v else none)
  pub fail_text :
      (key v e : String) (ttl : ℕ) (s : S.State)
      → (S.set_key key v ttl s).0 ≡ err e
      → ((m : ℕ) → text (S.set_key key v ttl s).1 key m ≡ text s key m)
        ⊎ ((m : ℕ) → text (S.set_key key v ttl s).1 key m ≡ (if ltb m ttl then some v else none))

module _ (S : Services) (E : Expiring S) (user_id addr : String) where
  -- A tick's SET takes effect, or fails, some seconds after the tick: `delay` for this one, and
  -- `before` for the tick five seconds before it.
  unfoldable pub beat : ℕ → ℕ → S.State → S.State
  beat before delay s =
      (register_user S user_id addr (E.after (heartbeat_interval + delay - before) s)).1

  -- One tick for each delay.
  unfoldable pub beats : ℕ → List ℕ → S.State → S.State
  beats before [] s = s
  beats before (delay ∷ delays) s = beats delay delays (beat before delay s)

  abbrev last_delay : ℕ → List ℕ → ℕ
  last_delay before [] = before
  last_delay before (delay ∷ delays) = last_delay delay delays

  -- How the tick went that comes next.
  abbrev Succeeds : ℕ → ℕ → S.State → Type 0
  Succeeds before delay s =
      (register_user S user_id addr (E.after (heartbeat_interval + delay - before) s)).0 ≡ ok tt

  abbrev Misses : ℕ → ℕ → S.State → Type 0
  Misses before delay s =
      (e : String) × ((register_user S user_id addr
          (E.after (heartbeat_interval + delay - before) s)).0
        ≡ err e)

  -- No two ticks in a row fail, after `k` that have failed.
  abbrev pub Lasts : ℕ → ℕ → List ℕ → S.State → Type 0
  Lasts k before [] s = Unit
  Lasts k before (delay ∷ delays) s =
      (Succeeds before delay s × Lasts 0 delay delays (beat before delay s))
      ⊎ ((k ≡ 0) × Misses before delay s × Lasts 1 delay delays (beat before delay s))

  -- The key was set `n` seconds ago.
  abbrev IsAged : ℕ → S.State → Type 0
  IsAged n s =
      (m : ℕ)
      → E.text s (presence_key user_id) m ≡ (if ltb (n + m) presence_ttl then some addr else none)

  register-IsAged :
      (s : S.State)
      → (register_user S user_id addr s).0 ≡ ok tt
      → IsAged 0 (register_user S user_id addr s).1
  unfolding register_user
  register-IsAged s h m = ground (arith, E.set_text (presence_key user_id) addr presence_ttl s h m)

  after-IsAged : (n g : ℕ) (s : S.State) → IsAged n s → IsAged (n + g) (E.after g s)
  after-IsAged n g s aged m =
      ground (arith, E.after_text g s (presence_key user_id) m, aged (g + m))

  miss-IsAged :
      (n before delay : ℕ) (s : S.State)
      → Misses before delay s
      → IsAged n s
      → IsAged (n + (heartbeat_interval + delay - before)) (beat before delay s)
        ⊎ IsAged 0 (beat before delay s)
  unfolding beat register_user
  miss-IsAged n before delay s (e, h) aged =
      let gap = heartbeat_interval + delay - before in
      elim (E.fail_text (presence_key user_id) addr e presence_ttl (E.after gap s) h) [
        | inl same ↦ inl (λ m. same m ∙ after-IsAged n gap s aged m)
        | inr set ↦ inr (λ m. ground (arith, set m))
      ]

  good-IsAged :
      (before delay : ℕ) (s : S.State) → Succeeds before delay s → IsAged 0 (beat before delay s)
  unfolding beat
  good-IsAged before delay s h = register-IsAged (E.after (heartbeat_interval + delay - before) s) h

  -- While at most one tick has failed since the key was set, its age is bounded.
  kept-text :
      (g : ℕ) (delays : List ℕ) (k n before : ℕ) (s : S.State)
      → All (λ d. g + d < heartbeat_interval) delays
      → k ≤ 1
      → g + before < heartbeat_interval
      → n ≤ g + before + heartbeat_interval * k
      → IsAged n s
      → Lasts k before delays s
      → (next m : ℕ) → g + next < heartbeat_interval
      → last_delay before delays + m ≤ heartbeat_interval + next
      → E.text (beats before delays s) (presence_key user_id) m ≡ some addr
  unfolding beats
  kept-text g [] k n before s soon few in_time young aged h next m next_soon until =
      ground (arith, aged m)
  kept-text g (d ∷ ds) k n before s soon few in_time young aged (inl (good, h)) next m next_soon
        until =
      kept-text g ds 0 0 d (beat before d s) soon.1 (omega arith) soon.0 (omega arith)
        (good-IsAged before d s good) h next m next_soon until
  kept-text g (d ∷ ds) k n before s soon few in_time young aged (inr (first, miss, h)) next m
        next_soon until =
      let now_soon : g + d < heartbeat_interval = soon.0 in
      elim (miss-IsAged n before d s miss aged) [
        | inl older ↦
            kept-text g ds 1 (n + (heartbeat_interval + d - before)) d (beat before d s) soon.1
              (omega arith) now_soon (omega arith) older h next m next_soon until
        | inr set ↦
            kept-text g ds 1 0 d (beat before d s) soon.1 (omega arith) now_soon (omega arith) set h
              next m next_soon until
      ]

  -- A user is registered, the ticker starts `g` seconds later, and each SET of a tick takes effect or
  -- fails so soon after its tick that this and `g` make less than five seconds. Then, as long as no two
  -- ticks in a row fail, the presence key has the address, from one tick's SET until that of the next
  -- tick, whenever that one takes effect.
  pub presence_kept :
      (s : S.State) (g : ℕ) (delays : List ℕ) (next m : ℕ)
      → (register_user S user_id addr s).0 ≡ ok tt
      → let s' = E.after g (register_user S user_id addr s).1 in
        All (λ d. g + d < heartbeat_interval) delays
        → g + next < heartbeat_interval
        → Lasts 0 0 delays s'
        → last_delay 0 delays + m ≤ heartbeat_interval + next
        → E.text (beats 0 delays s') (presence_key user_id) m ≡ some addr
  presence_kept s g delays next m h soon next_soon lasts until =
      let s' = (register_user S user_id addr s).1 in
      kept-text g delays 0 (0 + g) 0 (E.after g s') soon (omega arith) (omega arith) (omega arith)
        (after-IsAged 0 g s' (register-IsAged s h)) lasts next m next_soon until
