-- ===== src/WebServer/Climb.antt =====
-- Requests that are answered from a file outside of the directory of the web client.
use Prim.Native.String.{◌++◌ as ◌<>◌}
use text.Mathlib.TextLemmas.{nil-append}
use tinytelegram.Base.{
  ℕ, zero, suc, ◌≤◌, length-append, ◌≡◌, ◌≢◌, refl, ap, sym, ◌∙◌, String, ◌==◌, List, [], ◌∷◌, ◌++◌,
  arith, length, drop, Bool-cases, inl, inr, eq_iff,
}
use tinytelegram.Base.Exec.{Result}
use tinytelegram.Base.Text.{split_slash, split_slash-join, split_slash-Parts}
use tinytelegram.WebServer.{parent, enter, walk, normalize, serve_file, public_dir, target, handle}
use tinytelegram.WebServer.Paths.{walk-append, normalize-join, public_dir_lem, file_path_lem}

-- A path of so many "..".
abbrev pub climb : ℕ → String
climb zero = ""
climb (suc k) = climb k <> "/.."

split_slash-climb : (k : ℕ) → split_slash (climb (suc k)) ≡ split_slash (climb k) ++ (".." ∷ [])
split_slash-climb k = split_slash-join (climb k) ".." ∙ unfold split_slash in refl

walk-climb : (k : ℕ) (at : List String) → walk at (split_slash (climb k)) ≡ drop k at
unfolding walk enter split_slash
walk-climb zero at = refl
walk-climb (suc k) at =
    ap (walk at) (split_slash-climb k)
    ∙ walk-append at (split_slash (climb k)) (".." ∷ [])
    ∙ ap parent (walk-climb k at)
    ∙ parent-drop k at
  where
    parent-drop : (k : ℕ) (at : List String) → parent (drop k at) ≡ drop (suc k) at
    parent-drop zero [] = refl
    parent-drop zero (name ∷ at) = refl
    parent-drop (suc k) [] = refl
    parent-drop (suc k) (name ∷ at) = parent-drop k at

split_slash-pos : (s : String) → 1 ≤ length (split_slash s)
split_slash-pos s = let (part, parts, e) = split_slash-Parts s in rw e (omega arith)

-- What is neither empty nor a slash alone is asked for as it is.
target-long : (url : String) → 3 ≤ length (split_slash url) → (target url ≢ "") × (target url ≡ url)
unfolding split_slash
target-long url long =
    let root : url ≢ "/" = λ e. absurd (omega (arith, long, ap (λ s. length (split_slash s)) e)) in
    let empty : url ≢ "" = λ e. absurd (omega (arith, long, ap (λ s. length (split_slash s)) e)) in
    elim (Bool-cases (url == "/")) [
      | inl e ↦ absurd (root ((eq_iff url "/").0 e))
      | inr e ↦ rw e (empty, refl)
    ]

climb-long : (k : ℕ) (t : String) → 3 ≤ length (split_slash (climb (suc k) <> ("/" <> t)))
climb-long k t =
    rw (split_slash-join (climb (suc k)) t, split_slash-climb k)
      (omega (
        arith,
        length-append (split_slash (climb k) ++ (".." ∷ [])) (split_slash t),
        length-append (split_slash (climb k)) (".." ∷ []),
        split_slash-pos (climb k),
        split_slash-pos t,
      ))

drop-length : (l : List String) → drop (length l) l ≡ []
drop-length [] = refl
drop-length (name ∷ l) = drop-length l

walk-root :
    (at : List String) (t : String)
    → walk at (split_slash (climb (length at) <> ("/" <> t))) ≡ (normalize t).names
unfolding normalize
walk-root at t =
    ap (walk at) (split_slash-join (climb (length at)) t)
    ∙ walk-append at (split_slash (climb (length at))) (split_slash t)
    ∙ ap (λ l. walk l (split_slash t)) (walk-climb (length at) at ∙ drop-length at)

normalize-slash : (t : String) → normalize ("/" <> t) ≡ normalize t
unfolding normalize walk enter split_slash
normalize-slash t = ap normalize (sym (nil-append ("/" <> t))) ∙ normalize-join "" t

-- A request that goes up once for every name in the path of the directory, and then down a path from
-- the root, is answered from the file at that path, whatever file of the machine it is.
pub any_file_served :
    (read_file : String → Result String) (dirname t : String)
    → handle read_file dirname (climb (length (public_dir dirname).names) <> ("/" <> t))
      ≡ serve_file read_file (normalize ("/" <> t))
unfolding handle
any_file_served read_file dirname t =
    let dir = (public_dir dirname).names in
    let url = climb (length dir) <> ("/" <> t) in
    let long : 3 ≤ length (split_slash url) =
      rw (public_dir_lem dirname) (climb-long (length (normalize dirname).names) t) in
    let (nonempty, same) = target-long url long in
    ap (serve_file read_file) (
      file_path_lem dirname url nonempty
      ∙ ap
          (λ s. record {
            names = walk dir (split_slash s);
            slash_ended = (normalize s).slash_ended;
          })
          same
      ∙ ap (λ l. record { names = l; slash_ended = (normalize url).slash_ended }) (walk-root dir t)
      ∙ ap (λ b. record { names = (normalize t).names; slash_ended = b })
          (ap (λ p. p.slash_ended) (normalize-join (climb (length dir)) t))
      ∙ sym (normalize-slash t))
