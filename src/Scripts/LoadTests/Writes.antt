-- ===== src/Scripts/LoadTests/Writes.antt =====
-- scripts/experiment2/load_test.js and bottleneck_test.js, against the HTTP port of the message service,
-- which both of them call on localhost:9090.
mod Tests
use tinytelegram.Base.{
  ℕ, ◌≤◌, ◌+◌, ◌≡◌, refl, ap, ◌∙◌, String, Bool, true, false, List, [], ◌∷◌, ltb, eqb, arith,
  length, All,
}
use tinytelegram.Base.Exec.{Result, ok, err}
use tinytelegram.MessageService.Redis.{Redis}
use tinytelegram.MessageService.Postgres.{Postgres}
use tinytelegram.MessageService.Persist.{World}
use tinytelegram.MessageService.Http.{
  Body, json_status, json_pts, plain, HttpResponse, redis_only, serve,
}

-- JSON.parse(r.body).pts > 0
abbrev has_pts : Body → Result Bool
has_pts (json_pts pts) = ok (ltb 0 pts)
has_pts (json_status s) = ok false
has_pts (plain t) = err "SyntaxError"

-- A check that throws does not pass.
abbrev passes : Result Bool → Bool
passes (ok b) = b
passes (err e) = false

abbrev is_ok : HttpResponse → Bool
is_ok res = eqb res.status 200

-- An iteration of load_test.js, or of bottleneck_test.js.
pub data Iteration : Type 0 where
  load bottleneck : Iteration

module _ (R : Redis) (P : Postgres) where
  -- The stores, and the checks so far: of the requests for the counter, and of those that are to write.
  pub record Progress : Type 0 where
    pub world : World R P
    pub redis_checks : List Bool
    pub write_checks : List Bool

  -- http.post(.../message): `status is 200` and `has pts`.
  unfoldable pub load_iteration : Progress → Progress
  unfolding serve
  load_iteration p =
      let (res, w) = serve R P "/message" p.world in
      record {
        world = w;
        redis_checks = p.redis_checks;
        write_checks = passes (has_pts res.body) ∷ is_ok res ∷ p.write_checks;
      }

  -- http.get(.../redis-only), then http.post(.../message).
  unfoldable pub bottleneck_iteration : Progress → Progress
  unfolding serve
  bottleneck_iteration p =
      let (redis_res, w) = serve R P "/redis-only" p.world in
      let (full_res, w') = serve R P "/message" w in
      record {
        world = w';
        redis_checks = is_ok redis_res ∷ p.redis_checks;
        write_checks = is_ok full_res ∷ p.write_checks;
      }

  abbrev iterate : Iteration → Progress → Progress
  iterate load p = load_iteration p
  iterate bottleneck p = bottleneck_iteration p

  unfoldable pub run : List Iteration → Progress → Progress
  run [] p = p
  run (it ∷ its) p = run its (iterate it p)

  -- Whatever iterations of the two tests come one after another, the table stays as it is, and every
  -- iteration adds checks of its write, none of which passes.
  pub no_write_passes :
      (its : List Iteration) (p : Progress)
      → All (λ b. b ≡ false) p.write_checks
      → let p' = run its p in
        (p'.world.db ≡ p.world.db)
        × All (λ b. b ≡ false) p'.write_checks
        × (length p.write_checks + length its ≤ length p'.write_checks)
  unfolding run load_iteration bottleneck_iteration redis_only
  no_write_passes [] p h = (refl, h, omega arith)
  no_write_passes (load ∷ its) p h =
      let (same, failed, more) = no_write_passes its (load_iteration p) (refl, (refl, h)) in
      (same, failed, omega (arith, more))
  no_write_passes (bottleneck ∷ its) p h =
      let (same, failed, more) = no_write_passes its (bottleneck_iteration p) (refl, h) in
      (same, failed, omega (arith, more))
