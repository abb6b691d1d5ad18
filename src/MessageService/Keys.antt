-- ===== src/MessageService/Keys.antt =====
-- The names of the Redis keys (message-service/store/redis.go, gateway/store/redis.go).
use Prim.Native.String.{◌++◌}
use text.Mathlib.TextLemmas.{append_cancel_left, append_cancel_right}
use tinytelegram.Base.{String, ◌≡◌}

-- fmt.Sprintf("user:%s:pts", userID)
unfoldable pub pts_key : String → String
pts_key user_id = "user:" ++ (user_id ++ ":pts")

-- "presence:" + userID
unfoldable pub presence_key : String → String
presence_key user_id = "presence:" ++ user_id

pub pts_key_inj : (u v : String) → pts_key u ≡ pts_key v → u ≡ v
unfolding pts_key
pts_key_inj u v h = append_cancel_right u v ":pts" (append_cancel_left "user:" _ _ h)
