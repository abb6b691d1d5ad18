-- ===== src/MessageService/Http.antt =====
-- The HTTP port of the message service (message-service/handler, message-service/main.go).
use tinytelegram.Base.{ℕ, String, ◌==◌, if◌then◌else◌}
use tinytelegram.Base.Exec.{Result, ok, err}
use tinytelegram.MessageService.Redis.{Redis, next_user_pts}
use tinytelegram.MessageService.Postgres.{Postgres}
use tinytelegram.MessageService.Persist.{World}

-- {"status": ...}, {"pts": ...}, or a text that is no JSON.
pub data Body : Type 0 where
  json_status : String → Body
  json_pts : ℕ → Body
  plain : String → Body

pub record HttpResponse : Type 0 where
  pub status : ℕ
  pub content_type : String
  pub body : Body

abbrev pub plain_text : String
plain_text = "text/plain; charset=utf-8"

abbrev pub health : HttpResponse
health = record { status = 200; content_type = "application/json"; body = json_status "ok" }

-- What the mux of net/http answers for a path without a handler.
abbrev pub not_found : HttpResponse
not_found = record { status = 404; content_type = plain_text; body = plain "404 page not found\n" }

abbrev counted : Result ℕ → HttpResponse
counted (ok pts) = record { status = 200; content_type = "application/json"; body = json_pts pts }
counted (err e) = record { status = 500; content_type = plain_text; body = plain "redis error\n" }

module _ (R : Redis) (P : Postgres) where
  unfoldable pub redis_only : World R P → HttpResponse × World R P
  unfolding next_user_pts
  redis_only w =
      let (pts, conn') = next_user_pts R "benchmark-user" w.conn in
      (counted pts, record { conn = conn'; db = w.db })

  -- The two handlers that `main` registers, whatever the method; a path that the mux would clean is
  -- redirected before.
  unfoldable pub serve : String → World R P → HttpResponse × World R P
  unfolding redis_only
  serve path w =
      if path == "/health"
      then (health, w)
      else if path == "/redis-only"
      then redis_only w
      else (not_found, w)
