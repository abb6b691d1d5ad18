-- ===== src/WebServer/Tests.antt =====
-- The web server at concrete inputs.
use tinytelegram.Base.{◌≡◌, ◌≢◌, refl, ap, sym, ◌∙◌, String, some, ◌++◌, ◌==◌, length}
use mathlib.Core.Bool.{false≢true}
use Prim.Native.String.{◌++◌ as ◌<>◌}
use tinytelegram.Base.Exec.{Result, ok, err}
use tinytelegram.Base.Text.{split_slash}
use tinytelegram.WebServer.{
  enter, walk, ends_empty, normalize, join, to_text, last_dot, extname, is_lowered, mime_type,
  answer, serve_file, public_dir, file_path, target, handle,
}
use tinytelegram.WebServer.Below.{served_below}
use tinytelegram.WebServer.Climb.{climb, any_file_served}

-- Every file holds its own path.
abbrev own_path : String → Result String
own_path p = ok p

abbrev no_files : String → Result String
no_files p = err "ENOENT"

first_page :
    handle own_path "/srv/web" "/"
    ≡ record { status = 200; content_type = some "text/html"; body = "/srv/web/public/index.html" }
unfolding handle serve_file file_path public_dir join normalize split_slash walk enter ends_empty
    to_text answer extname last_dot mime_type is_lowered
first_page = refl

capitals : (handle own_path "/srv/web" "/a//b/./C.JPG").content_type ≡ some "image/jpg"
unfolding handle serve_file file_path public_dir join normalize split_slash walk enter ends_empty
    to_text answer extname last_dot mime_type is_lowered
capitals = refl

-- What follows a question mark belongs to the name.
query_kept : handle own_path "/srv/web" "/app.js?v=1" ≡ record {
  status = 200;
  content_type = some "application/octet-stream";
  body = "/srv/web/public/app.js?v=1";
}
unfolding handle serve_file file_path public_dir join normalize split_slash walk enter ends_empty
    to_text answer extname last_dot mime_type is_lowered
query_kept = refl

not_found : (handle no_files "/srv/web" "/none").status ≡ 404
unfolding handle serve_file file_path public_dir join normalize split_slash walk enter ends_empty
    to_text answer extname last_dot mime_type is_lowered
not_found = refl

app_stays : (url : String) → url ≡ "/css/../app.js" → url ≢ ""
app_stays url e h = false≢true (ap (λ s. s == "") (sym e ∙ h))

served_below_example :
    handle own_path "/srv/web" "/css/../app.js"
    ≡ serve_file own_path (record {
      names = (normalize (target "/css/../app.js")).names ++ (public_dir "/srv/web").names;
      slash_ended = (normalize (target "/css/../app.js")).slash_ended;
    })
unfolding split_slash
served_below_example =
    served_below own_path "/srv/web" "/css/../app.js" (app_stays "/css/../app.js" refl) refl

-- The keys of a user of the machine.
any_file_served_example :
    handle own_path "/srv/web"
      (climb (length (public_dir "/srv/web").names) <> ("/" <> "root/keys"))
    ≡ serve_file own_path (normalize ("/" <> "root/keys"))
any_file_served_example = any_file_served own_path "/srv/web" "root/keys"

keys_served : (handle own_path "/srv/web" "/../../../root/keys").body ≡ "/root/keys"
unfolding handle serve_file file_path public_dir join normalize split_slash walk enter ends_empty
    to_text answer extname last_dot mime_type is_lowered
keys_served = refl
