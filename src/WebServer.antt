-- ===== src/WebServer.antt =====
-- The server that hands out the web client on a developer's machine (web-client/server.js).
pub mod Paths
pub mod Below
pub mod Climb
mod Tests
use Prim.Native.Char.{Char, code}
use Prim.Native.String.{◌++◌ as ◌<>◌, [] as no_text, ◌∷◌ as ◌in_front◌}
use tinytelegram.Base.{
  ℕ, ◌+◌, String, Bool, true, false, ◌&&◌, ◌||◌, Option, none, some, List, [], ◌∷◌, ◌==◌, eqb, leb,
  if◌then◌else◌,
}
use tinytelegram.Base.Exec.{Result, ok, err}
use tinytelegram.Base.Text.{split_slash}

-- An absolute path as path.normalize of Node leaves it on POSIX: its names, the last one first, and
-- whether a slash stands after them.
pub record FilePath : Type 0 where
  pub names : List String
  pub slash_ended : Bool

abbrev pub parent : List String → List String
parent [] = []
parent (name ∷ above) = above

-- One part of a path: nothing and "." stay, ".." goes up, and the root is its own parent.
unfoldable pub enter : List String → String → List String
enter at part =
    if part == "" || part == "." then at else if part == ".." then parent at else part ∷ at

unfoldable pub walk : List String → List String → List String
walk at [] = at
walk at (part ∷ parts) = walk (enter at part) parts

-- Nothing stands after the last slash.
unfoldable pub ends_empty : List String → Bool
ends_empty [] = false
ends_empty (part ∷ []) = part == ""
ends_empty (part ∷ next ∷ parts) = ends_empty (next ∷ parts)

unfoldable pub normalize : String → FilePath
unfolding split_slash
normalize s = record { names = walk [] (split_slash s); slash_ended = ends_empty (split_slash s) }

-- path.join of an absolute path and another; what is empty is left out.
unfoldable pub join : String → String → FilePath
join dir s = if s == "" then normalize dir else normalize (dir <> ("/" <> s))

abbrev pub join_names : List String → String
join_names [] = ""
join_names (name ∷ above) = join_names above <> ("/" <> name)

-- The text of a path.
unfoldable pub to_text : FilePath → String
to_text p = elim p.names [
  | [] ↦ "/"
  | name ∷ above ↦ join_names (name ∷ above) <> (if p.slash_ended then "/" else "")
]

abbrev or_from : Char → String → Option String → Option String
or_from c s (some e) = some e
or_from c s none = if eqb (code c) b'.' then some (c in_front s) else none

-- The text from the last dot on.
unfoldable pub last_dot : String → Option String
last_dot no_text = none
last_dot (c in_front s) = or_from c s (last_dot s)

-- path.extname; a dot in front of a name starts no extension.
unfoldable pub extname : FilePath → String
extname p = elim p.names [
  | [] ↦ ""
  | name ∷ _ ↦ elim name [
    | no_text ↦ ""
    | c in_front s ↦ elim (last_dot s) [ none ↦ "" | some e ↦ e ]
  ]
]

-- toLowerCase on the letters of ASCII; no other letter becomes one of MIME_TYPES.
abbrev lower : ℕ → ℕ
lower n = if leb b'A' n && leb n b'Z' then n + 32 else n

unfoldable pub is_lowered : String → String → Bool
is_lowered no_text no_text = true
is_lowered no_text (c in_front s) = false
is_lowered (k in_front ks) no_text = false
is_lowered (k in_front ks) (c in_front s) = eqb (code k) (lower (code c)) && is_lowered ks s

abbrev pub mime_types : List (String × String)
mime_types =
    (".html", "text/html")
    ∷ (".js", "text/javascript")
    ∷ (".css", "text/css")
    ∷ (".json", "application/json")
    ∷ (".png", "image/png")
    ∷ (".jpg", "image/jpg")
    ∷ (".gif", "image/gif")
    ∷ (".svg", "image/svg+xml")
    ∷ (".ico", "image/x-icon")
    ∷ []

-- MIME_TYPES[extname] || 'application/octet-stream'
unfoldable pub mime_type : String → List (String × String) → String
mime_type ext [] = "application/octet-stream"
mime_type ext ((key, type) ∷ rest) = if is_lowered key ext then type else mime_type ext rest

pub record Response : Type 0 where
  pub status : ℕ
  pub content_type : Option String
  pub body : String

-- fs.readFile: the content of the file, or the code of the error.
unfoldable pub answer : FilePath → Result String → Response
answer p (err error_code) =
    if error_code == "ENOENT"
    then record { status = 404; content_type = some "text/html"; body = "<h1>404 Not Found</h1>" }
    else record { status = 500; content_type = none; body = "Server Error: " <> error_code }
answer p (ok content) = record {
  status = 200;
  content_type = some (mime_type (extname p) mime_types);
  body = content;
}

unfoldable pub serve_file : (String → Result String) → FilePath → Response
serve_file read_file p = answer p (read_file (to_text p))

-- PUBLIC_DIR, from the directory of the server, an absolute path.
unfoldable pub public_dir : String → FilePath
public_dir dirname = join dirname "public"

-- What the request asks for.
abbrev pub target : String → String
target url = if url == "/" then "index.html" else url

unfoldable pub file_path : String → String → FilePath
file_path dirname url = join (to_text (public_dir dirname)) (target url)

-- The whole handler of a request.
unfoldable pub handle : (String → Result String) → String → String → Response
handle read_file dirname url = serve_file read_file (file_path dirname url)
