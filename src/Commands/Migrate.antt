-- ===== src/Commands/Migrate.antt =====
-- cmd/migrate/main.go. goose and database/sql are parameters; the calls of goose that act on the
-- migrations are written down. A failure of the deferred close is a log line and is not modelled.
use go_bootstrap.Prelude.{
  ℕ, String, ◌≡◌, refl, Bool, true, false, List, [], ◌∷◌, any, All, Bool-cases, inl, inr, subst,
  sym, eq_iff, ◌==◌, ◌++◌, if◌then◌else◌,
}
use go_bootstrap.Errors.{sentinel, is, usage, wrap, map_err, Result, ok, err}
use go_bootstrap.Exec.{Exec, fail, lift, wrapping, ◌>>◌}

-- a call of goose, by its name, and the name of a migration that is created
pub data Call : Type 0 where
  goose : String → Call
  goose_create : String → Call

pub record Tools : Type 0 where
  pub set_dialect : Result (Unit {0})
  pub open_db : Result (Unit {0})
  pub answer : Call → Result (Unit {0})

module _ (tools : Tools) where
  abbrev pub calling : Call → Exec (List Call) (Unit {0})
  calling call calls = (tools.answer call, calls ++ call ∷ [])

  unfoldable pub run_command : String → Exec (List Call) (Unit {0})
  run_command cmd =
      if cmd == "up"
      then wrapping cmd (calling (goose "up"))
      else if cmd == "up-by-one"
      then wrapping cmd (calling (goose "up-by-one"))
      else if cmd == "down"
      then wrapping cmd (calling (goose "down"))
      else if cmd == "redo"
      then wrapping cmd (calling (goose "redo"))
      else if cmd == "reset"
      then wrapping cmd (calling (goose "reset"))
      else if cmd == "status"
      then wrapping cmd (calling (goose "status"))
      else if cmd == "version"
      then wrapping cmd (calling (goose "version"))
      else fail (sentinel usage)

  create_migration : List String → Exec (List Call) (Unit {0})
  create_migration [] = fail (sentinel usage)
  create_migration (name ∷ []) = wrapping "create migration" (calling (goose_create name))
  create_migration (name ∷ more ∷ rest) = fail (sentinel usage)

  migrate : String → Exec (List Call) (Unit {0})
  unfolding run_command
  migrate cmd = do
    wrapping "set goose dialect" (lift tools.set_dialect)
    wrapping "open database" (lift tools.open_db)
    run_command cmd

  -- on the arguments of the process, with its name first
  unfoldable pub main_err : List String → Exec (List Call) (Unit {0})
  unfolding create_migration migrate
  main_err [] = fail (sentinel usage)
  main_err (program ∷ []) = fail (sentinel usage)
  main_err (program ∷ cmd ∷ rest) = if cmd == "create" then create_migration rest else migrate cmd

unfoldable pub exit_status : Result (Unit {0}) → ℕ
exit_status (ok u) = 0
exit_status (err e) = if is e usage then 2 else 1

abbrev pub commands : List String
commands = "up" ∷ "up-by-one" ∷ "down" ∷ "redo" ∷ "reset" ∷ "status" ∷ "version" ∷ []

abbrev pub is_command : String → Bool
is_command cmd = any (λ name. cmd == name) commands

module _ (P : String → Type 0) where
  any-All :
      (cmd : String) (names : List String)
      → any (λ name. cmd == name) names ≡ true
      → All P names
      → P cmd
  any-All cmd [] h k = cc
  any-All cmd (name ∷ names) h k = elim (Bool-cases (cmd == name)) [
    | inl same ↦ subst P (sym ((eq_iff cmd name).0 same)) k.0
    | inr apart ↦ any-All cmd names (rw (apart) at h) k.1
  ]

none-All :
    (cmd : String) (names : List String)
    → any (λ name. cmd == name) names ≡ false
    → All (λ name. (cmd == name) ≡ false) names
none-All cmd [] h = tt
none-All cmd (name ∷ names) h = elim (Bool-cases (cmd == name)) [
  | inl same ↦ cc (rw same at h)
  | inr apart ↦ (apart, none-All cmd names (rw apart at h))
]

module _ (tools : Tools) where
  abbrev pub passed_on : String → List Call → Result (Unit {0}) × List Call
  passed_on cmd calls = (map_err (wrap cmd) (tools.answer (goose cmd)), calls ++ goose cmd ∷ [])

  run_command-known :
      (cmd : String) (calls : List Call)
      → is_command cmd ≡ true
      → run_command tools cmd calls ≡ passed_on cmd calls
  unfolding run_command
  run_command-known cmd calls h =
      any-All (λ cmd. run_command tools cmd calls ≡ passed_on cmd calls) cmd commands h
        (refl, (refl, (refl, (refl, (refl, (refl, (refl, tt)))))))

  run_command-unknown :
      (cmd : String) (calls : List Call)
      → is_command cmd ≡ false
      → run_command tools cmd calls ≡ (err (sentinel usage), calls)
  unfolding run_command
  run_command-unknown cmd calls h =
      let (up, (up_by_one, (down, (redo, (reset, (status, (version, end))))))) =
        none-All cmd commands h in
      rw (up, up_by_one, down, redo, reset, status, version) refl

  -- Where goose takes the dialect and the database opens, each of the seven commands makes the one call
  -- of goose that has its name and fails with that call's error under the command's name; any other word
  -- but create ends in the usage error, and goose is not called.
  pub main_err_lem :
      (program cmd : String) (rest : List String) (calls : List Call)
      → (cmd == "create") ≡ false
      → tools.set_dialect ≡ ok tt
      → tools.open_db ≡ ok tt
      → main_err tools (program ∷ cmd ∷ rest) calls
        ≡ (if is_command cmd then passed_on cmd calls else (err (sentinel usage), calls))
  unfolding main_err migrate
  main_err_lem program cmd rest calls other dialect opened = elim (Bool-cases (is_command cmd)) [
    | inl known ↦ rw (other, dialect, opened, known) (run_command-known cmd calls known)
    | inr unknown ↦ rw (other, dialect, opened, unknown) (run_command-unknown cmd calls unknown)
  ]
