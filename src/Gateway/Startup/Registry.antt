-- ===== src/Gateway/Startup/Registry.antt =====
-- gateway/store/redis.go and gateway/main.go: how a gateway makes its address known.
use Prim.Native.String.{◌++◌ as ◌<>◌}
use tinytelegram.Base.{
  ℕ, ◌≡◌, ◌⊎◌, inl, inr, refl, ◌∙◌, arith, String, Bool, true, false, ◌==◌, ◌||◌, Option, some,
  List, [], ◌∷◌, if◌then◌else◌, Bool-cases,
}
use tinytelegram.Base.Exec.{Result, ok, err, Exec, continue, Result-cases}
use tinytelegram.Gateway.Session.{presence_ttl, presence_addr}
use tinytelegram.Gateway.Presence.{Signal, tick, done}
use tinytelegram.Gateway.Startup.{Http, Env, published, identify}

-- Redis with hashes: HSET and HDEL of a field of a hash, SET with a time to live, and DEL. A HSET sets
-- its field, and one that fails sets it or leaves it; SET leaves the hashes as they are.
pub record Hashes : Type 1 where
  pub State : Type 0
  pub hset : String → String → String → Exec State (Unit {0})
  pub hdel : String → String → State → State
  pub set_key : String → String → ℕ → Exec State (Unit {0})
  pub del_key : String → State → State
  pub field : State → String → String → Option String
  pub hset_ok :
      (hash f v : String) (s : State)
      → (hset hash f v s).0 ≡ ok tt
      → field (hset hash f v s).1 hash f ≡ some v
  pub hset_shape :
      (hash f v : String) (s : State)
      → (field (hset hash f v s).1 hash f ≡ some v)
        ⊎ (field (hset hash f v s).1 hash f ≡ field s hash f)
  pub set_keeps :
      (key v : String) (ttl : ℕ) (s : State) (hash f : String)
      → field (set_key key v ttl s).1 hash f ≡ field s hash f

-- fmt.Sprintf("gateway:%s:alive", gatewayID)
abbrev pub alive_key : String → String
alive_key gateway_id = "gateway:" <> (gateway_id <> ":alive")

module _ (D : Hashes) where
  open D use {State, hset, hdel, set_key, del_key, field}

  unfoldable pub register_gateway : String → String → Exec State (Unit {0})
  register_gateway gateway_id grpc_addr s =
      continue (hset "gateways" gateway_id grpc_addr s)
        λ _ s'. set_key (alive_key gateway_id) "1" presence_ttl s'

  unfoldable pub unregister_gateway : String → State → State
  unregister_gateway gateway_id s = del_key (alive_key gateway_id) (hdel "gateways" gateway_id s)

  -- The goroutine of StartGatewayHeartbeat: a failure is only logged.
  unfoldable pub gateway_heartbeat : String → String → List Signal → State → State
  gateway_heartbeat gateway_id grpc_addr [] s = s
  gateway_heartbeat gateway_id grpc_addr (tick ∷ signals) s =
      gateway_heartbeat gateway_id grpc_addr signals (register_gateway gateway_id grpc_addr s).1
  gateway_heartbeat gateway_id grpc_addr (done ∷ signals) s = s

  abbrev is_known : String → String → Bool
  is_known id addr = if (id == "") || (addr == "") then false else true

  -- The gateway registers, and its heartbeat runs while it serves.
  abbrev announced : String → String → List Signal → State → State
  announced id addr signals s =
      if is_known id addr
      then gateway_heartbeat id addr signals (register_gateway id addr s).1
      else s

  -- log.Fatal ends the process, and no deferred function runs.
  abbrev after_serve : Result (Unit {0}) → String → String → Exec State (Unit {0})
  after_serve (err e) id addr s = (err e, s)
  after_serve (ok _) id addr s = (ok tt, if is_known id addr then unregister_gateway id s else s)

  abbrev run_main :
      Result (Env × (String × String)) → List Signal → Result (Unit {0}) → Exec State (Unit {0})
  run_main (err e) signals served s = (err e, s)
  run_main (ok (env, (id, addr))) signals served s =
      after_serve served id addr (announced id addr signals s)

  -- `served` is what ListenAndServe returns.
  unfoldable pub main : Http → Env → List Signal → Result (Unit {0}) → Exec State (Unit {0})
  main H env signals served s = run_main (identify H env) signals served s

  register-field :
      (id addr : String) (s : State)
      → (hset "gateways" id addr s).0 ≡ ok tt
      → field (register_gateway id addr s).1 "gateways" id ≡ some addr
  unfolding register_gateway
  register-field id addr s h = rw h (
      D.set_keeps (alive_key id) "1" presence_ttl (hset "gateways" id addr s).1 "gateways" id
      ∙ D.hset_ok "gateways" id addr s h)

  again-field :
      (id addr : String) (s : State)
      → field s "gateways" id ≡ some addr
      → field (register_gateway id addr s).1 "gateways" id ≡ some addr
  unfolding register_gateway
  again-field id addr s h = elim (Result-cases (hset "gateways" id addr s).0) [
    | inl (u, e) ↦ register-field id addr s e
    | inr (reason, e) ↦ rw e (ground (arith, D.hset_shape "gateways" id addr s, h))
  ]

  heartbeat-field :
      (id addr : String) (signals : List Signal) (s : State)
      → field s "gateways" id ≡ some addr
      → field (gateway_heartbeat id addr signals s) "gateways" id ≡ some addr
  unfolding gateway_heartbeat
  heartbeat-field id addr [] s h = h
  heartbeat-field id addr (done ∷ signals) s h = h
  heartbeat-field id addr (tick ∷ signals) s h =
      heartbeat-field id addr signals (register_gateway id addr s).1 (again-field id addr s h)

  module _ (H : Http) (env : Env) where
    published-presence :
        (env' : Env) (id addr : String) (r : Result (String × String))
        → published H env r ≡ ok (env', (id, addr))
        → (addr == "") ≡ false
        → presence_addr env'.gateway_addr env'.gateway_grpc_addr ≡ addr
    unfolding presence_addr
    published-presence env' id addr (ok (i, a)) e known = ground arith
    published-presence env' id addr (err reason) e known = absurd (ground arith)

    -- The handlers write the address that the gateway registered under the users' presence keys.
    identified-presence :
        (env' : Env) (id addr : String)
        → identify H env ≡ ok (env', (id, addr))
        → (addr == "") ≡ false
        → presence_addr env'.gateway_addr env'.gateway_grpc_addr ≡ addr
    unfolding identify presence_addr
    identified-presence env' id addr e known = elim (Bool-cases (env.metadata_uri == "")) [
      | inl unset ↦ ground (arith, unset)
      | inr uri ↦ published-presence env' id addr _ (rw uri at e) known
    ]

    -- When a gateway starts with a name and an address, and its first HSET succeeds, then the field of
    -- its name in the hash of gateways is the address that its handlers write under the presence
    -- keys, while its heartbeat runs, with failures or none, and after ListenAndServe has failed and
    -- the process has ended.
    pub registered_for_good :
        (env' : Env) (id addr reason : String) (signals : List Signal) (s : State)
        → identify H env ≡ ok (env', (id, addr))
        → (id == "") ≡ false
        → (addr == "") ≡ false
        → (hset "gateways" id addr s).0 ≡ ok tt
        → let presence = presence_addr env'.gateway_addr env'.gateway_grpc_addr in
          let (outcome, s') = main H env signals (err reason) s in
          (outcome ≡ err reason) × (field s' "gateways" id ≡ some presence)
    unfolding main
    registered_for_good env' id addr reason signals s e has_id has_addr set =
        let kept =
          heartbeat-field id addr signals (register_gateway id addr s).1
            (register-field id addr s set) in
        rw (e, has_id, has_addr, identified-presence env' id addr e has_addr) (refl, kept)
