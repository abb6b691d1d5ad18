-- ===== src/Gateway/Startup/Tests.antt =====
-- The theorems about the start of a gateway at concrete inputs.
use tinytelegram.Base.{
  ◌≡◌, ◌⊎◌, inl, refl, String, ◌==◌, Option, none, some, [], ◌∷◌, if◌then◌else◌, arith, eq_refl,
}
use tinytelegram.Base.Exec.{ok, err, Exec}
use tinytelegram.Base.Text.{split_slash}
use tinytelegram.Gateway.Session.{presence_addr}
use tinytelegram.Gateway.Presence.{tick}
use tinytelegram.Gateway.Startup.{Http, Meta, Env, first_ip, self_of, resolve_self_addr, identify}
use tinytelegram.Gateway.Startup.Registry.{Hashes, main, registered_for_good}

abbrev task : Meta
task = record {
  task_arn = "arn:aws:ecs:us-east-1:1:task/chat/0123456789abcdef";
  containers = record { networks = record { ipv4_addresses = "10.0.0.7" ∷ [] } ∷ [] } ∷ [];
}

abbrev http : Http
http = record {
  get = λ uri. ok (record { status_code = 200; body = ok uri });
  unmarshal = λ body. ok task;
  decimal = λ n. "500";
}

abbrev ecs : Env
ecs = record {
  gateway_addr = "";
  gateway_grpc_addr = "";
  grpc_port = "";
  metadata_uri = "http://169.254.170.2/v4/task";
}

abbrev ecs_published : Env
ecs_published = record {
  gateway_addr = "89abcdef";
  gateway_grpc_addr = "10.0.0.7:9000";
  grpc_port = "";
  metadata_uri = "http://169.254.170.2/v4/task";
}

ecs_identified : identify http ecs ≡ ok (ecs_published, ("89abcdef", "10.0.0.7:9000"))
unfolding identify resolve_self_addr self_of split_slash first_ip
ecs_identified = refl

-- Hashes as functions.
abbrev Fields : Type 0
Fields = String → String → Option String

abbrev set_field : String → String → String → Exec Fields (Unit {0})
set_field hash f v s = (ok tt, λ h g. if h == hash then if g == f then some v else s h g else s h g)

set_field_found :
    (hash f v : String) (s : Fields)
    → (set_field hash f v s).0 ≡ ok tt
    → (set_field hash f v s).1 hash f ≡ some v
set_field_found hash f v s h = ground (arith, eq_refl hash, eq_refl f)

set_field_shape :
    (hash f v : String) (s : Fields)
    → ((set_field hash f v s).1 hash f ≡ some v) ⊎ ((set_field hash f v s).1 hash f ≡ s hash f)
set_field_shape hash f v s = inl (set_field_found hash f v s refl)

abbrev hashes : Hashes
hashes = record {
  State = Fields;
  hset = set_field;
  hdel = λ hash f s h g. if h == hash then if g == f then none else s h g else s h g;
  set_key = λ key v ttl s. (ok tt, s);
  del_key = λ key s. s;
  field = λ s h g. s h g;
  hset_ok = set_field_found;
  hset_shape = set_field_shape;
  set_keeps = λ key v ttl s hash f. refl;
}

abbrev no_fields : Fields
no_fields h g = none

registered_for_good_example :
    let (outcome, s) =
      main hashes http ecs (tick ∷ tick ∷ []) (err "bind: address in use") no_fields in
    (outcome ≡ err "bind: address in use")
    × (hashes.field s "gateways" "89abcdef" ≡ some (presence_addr "89abcdef" "10.0.0.7:9000"))
registered_for_good_example =
    registered_for_good hashes http ecs ecs_published "89abcdef" "10.0.0.7:9000"
      "bind: address in use" (tick ∷ tick ∷ []) no_fields ecs_identified refl refl refl
