-- ===== src/MessageService/Migrations.antt =====
-- message-service/store/postgres.go: the scripts that bring the table up to date at the start.
use Prim.Native.String.{len, slice, compare, ◌++◌ as ◌<>◌}
use Prim.Native.Nat.{Ordering}
use tinytelegram.Base.{
  ◌-◌, ◌≡◌, ap, arith, String, Bool, true, false, List, [], ◌∷◌, ◌==◌, filter, if◌then◌else◌, inl,
  inr,
}
use tinytelegram.Base.Exec.{Result, ok, err, Exec, continue, rename, Result-cases}

-- The embedded files, and Exec of the database.
pub record Setup : Type 1 where
  pub Db : Type 0
  pub read_dir : Result (List String)
  pub read_file : String → Result String
  pub exec : String → Exec Db (Unit {0})

-- strings.HasSuffix(name, ".sql")
abbrev pub is_sql : String → Bool
is_sql name = slice name (len name - 4) (len name) == ".sql"

abbrev goes_before : String → String → Bool
goes_before s t = elim (compare s t) [ Ordering.gt ↦ false | _ ↦ true ]

-- sort.Strings
unfoldable pub insert_name : String → List String → List String
insert_name s [] = s ∷ []
insert_name s (t ∷ names) = if goes_before s t then s ∷ t ∷ names else t ∷ insert_name s names

unfoldable pub sort_strings : List String → List String
unfolding insert_name
sort_strings [] = []
sort_strings (s ∷ names) = insert_name s (sort_strings names)

module _ (P : Setup) where
  abbrev exec_script : String → Result String → Exec P.Db (Unit {0})
  exec_script name (err e) d = (err ("read " <> (name <> (": " <> e))), d)
  exec_script name (ok content) d =
      rename (λ e. "exec " <> (name <> (": " <> e))) (P.exec content d)

  unfoldable pub run_scripts : List String → Exec P.Db (Unit {0})
  run_scripts [] d = (ok tt, d)
  run_scripts (name ∷ names) d =
      continue (exec_script name (P.read_file ("migrations/" <> name)) d)
        λ _ d'. run_scripts names d'

  abbrev run_entries : Result (List String) → Exec P.Db (Unit {0})
  run_entries (err e) d = (err ("read migrations dir: " <> e), d)
  run_entries (ok entries) d = run_scripts (sort_strings (filter is_sql entries)) d

  unfoldable pub run_migrations : Exec P.Db (Unit {0})
  unfolding sort_strings run_scripts
  run_migrations d = run_entries P.read_dir d

  -- The scripts were read and executed without an error, one after another.
  pub data Ran : List String → P.Db → P.Db → Type 0 where
    done : {d : P.Db} → Ran [] d d
    next :
        {name content : String} {names : List String} {d d' d'' : P.Db}
        → P.read_file ("migrations/" <> name) ≡ ok content
        → P.exec content d ≡ (ok tt, d')
        → Ran names d' d''
        → Ran (name ∷ names) d d''

  scripts-Ran :
      (names : List String) (d : P.Db)
      → (run_scripts names d).0 ≡ ok tt
      → Ran names d (run_scripts names d).1
  unfolding run_scripts
  scripts-Ran [] d h = done
  scripts-Ran (name ∷ names) d h = elim (Result-cases (P.read_file ("migrations/" <> name))) [
    | inr (e, failed) ↦ absurd (ground arith)
    | inl (content, found) ↦ elim (Result-cases (P.exec content d).0) [
      | inr (e, failed) ↦ absurd (ground arith)
      | inl (u, good) ↦
          let d' = (P.exec content d).1 in
          rw (found, good)
            (next found (ap (λ r. (r, d')) good) (scripts-Ran names d' (rw (found, good) at h)))
    ]
  ]

  abbrev pub scripts_of : Result (List String) → List String
  scripts_of (ok entries) = sort_strings (filter is_sql entries)
  scripts_of (err e) = []

  entries-Ran :
      (r : Result (List String)) (d : P.Db)
      → (run_entries r d).0 ≡ ok tt
      → Ran (scripts_of r) d (run_entries r d).1
  entries-Ran (ok entries) d h = scripts-Ran (sort_strings (filter is_sql entries)) d h
  entries-Ran (err e) d h = absurd (ground arith)

  -- Migrations that succeed have executed each of the embedded files with the suffix .sql, in the order of
  -- their names, without an error.
  pub migrations-Ran :
      (d : P.Db) → (run_migrations d).0 ≡ ok tt → Ran (scripts_of P.read_dir) d (run_migrations d).1
  unfolding run_migrations
  migrations-Ran d h = entries-Ran P.read_dir d h
