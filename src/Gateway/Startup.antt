-- ===== src/Gateway/Startup.antt =====
-- gateway/taskmeta.go, and the part of gateway/main.go that finds the name and the address by which a
-- gateway is known.
pub mod Registry
mod Tests
use Prim.Native.String.{len, slice, ◌++◌ as ◌<>◌, [] as no_text, ◌∷◌ as ◌in_front◌}
use tinytelegram.Base.{
  ℕ, ◌-◌, ◌≡◌, ◌⊎◌, inl, inr, refl, ap, sym, arith, String, Bool, true, false, ◌==◌, ◌||◌, Option,
  none, some, List, [], ◌∷◌, eqb, ltb, if◌then◌else◌, Bool-cases, eq_iff,
}
use tinytelegram.Base.Text.{split_slash}
use tinytelegram.Base.Exec.{Result, ok, err, Exec, continue, Result-cases}
use tinytelegram.Gateway.Session.{choose, presence_ttl, presence_addr}

-- arnParts[len(arnParts)-1]
abbrev pub last_of : String → List String → String
last_of part [] = part
last_of part (next ∷ parts) = last_of next parts

pub record Network : Type 0 where
  pub ipv4_addresses : List String

pub record Container : Type 0 where
  pub networks : List Network

-- The metadata of a task.
pub record Meta : Type 0 where
  pub task_arn : String
  pub containers : List Container

pub record Response : Type 0 where
  pub status_code : ℕ
  pub body : Result String

-- net/http, encoding/json and fmt: the answer to a GET, the decoder, and %d.
pub record Http : Type 0 where
  pub get : String → Result Response
  pub unmarshal : String → Result Meta
  pub decimal : ℕ → String

abbrev pub status_ok : ℕ
status_ok = 200

abbrev no_ip : Result String
no_ip = err "no container IP in metadata"

-- The first address of the first network of the first container.
unfoldable pub first_ip : List Container → Result String
first_ip [] = no_ip
first_ip (c ∷ _) = elim c.networks [
  | [] ↦ no_ip
  | n ∷ _ ↦ elim n.ipv4_addresses [ [] ↦ no_ip | ip ∷ _ ↦ ok ip ]
]

abbrev with_port : String → String → Result String → Result (String × String)
with_port self_id grpc_port (ok ip) = ok (self_id, ip <> (":" <> grpc_port))
with_port self_id grpc_port (err e) = err e

-- Its length is in bytes, as in Go. A character that the slice would cut is left out of it, where Go keeps
-- some of its bytes: names of tasks are ASCII.
unfoldable pub self_of : String → Meta → Result (String × String)
unfolding split_slash
self_of grpc_port meta =
    let last = last_of "" (split_slash meta.task_arn) in
    if ltb (len last) 8
    then err ("unexpected task ARN: " <> meta.task_arn)
    else with_port (slice last (len last - 8) (len last)) grpc_port (first_ip meta.containers)

-- The variables of the environment that say who the gateway is; one that is not set is empty.
pub record Env : Type 0 where
  pub gateway_addr : String
  pub gateway_grpc_addr : String
  pub grpc_port : String
  pub metadata_uri : String

module _ (H : Http) where
  abbrev after_unmarshal : String → Result Meta → Result (String × String)
  after_unmarshal grpc_port (ok meta) = self_of grpc_port meta
  after_unmarshal grpc_port (err e) = err ("parse metadata: " <> e)

  abbrev after_body : String → Result String → Result (String × String)
  after_body grpc_port (ok body) = after_unmarshal grpc_port (H.unmarshal body)
  after_body grpc_port (err e) = err e

  abbrev after_get : String → Result Response → Result (String × String)
  after_get grpc_port (ok resp) =
      if eqb resp.status_code status_ok
      then after_body grpc_port resp.body
      else err ("metadata HTTP " <> H.decimal resp.status_code)
  after_get grpc_port (err e) = err e

  unfoldable pub resolve_self_addr : String → String → Result (String × String)
  resolve_self_addr meta_uri grpc_port =
      if meta_uri == ""
      then err "ECS_CONTAINER_METADATA_URI_V4 not set"
      else after_get grpc_port (H.get (meta_uri <> "/task"))

  -- The environment that the handlers see, and the name and the address of the gateway.
  abbrev pub published : Env → Result (String × String) → Result (Env × (String × String))
  published env (ok (id, addr)) =
      ok (record env { gateway_addr = id; gateway_grpc_addr = addr }, (id, addr))
  published env (err e) = err ("ECS metadata resolution failed: " <> e)

  unfoldable pub identify : Env → Result (Env × (String × String))
  unfolding resolve_self_addr
  identify env =
      if env.metadata_uri == ""
      then ok (env, (env.gateway_addr, choose env.gateway_grpc_addr env.gateway_addr))
      else published env (resolve_self_addr env.metadata_uri (choose env.grpc_port "9000"))
