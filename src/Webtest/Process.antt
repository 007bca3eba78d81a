-- ===== src/Webtest/Process.antt =====
-- Main and run of webtest/webtest.go, with dropTestDB: the life of the database of a test package. What
-- the connections, the pool and the tests answer are parameters; the databases of the server are a list of
-- names. As Postgres documents, CREATE DATABASE adds a name, DROP DATABASE IF EXISTS takes it away, and a
-- drop fails while someone else is connected to the database. The errors that dropTestDB logs are dropped,
-- and dev.DevMode, which switches the colours of the log, is left out.
pub mod Cleaning
use go_bootstrap.Prelude.{
  ℕ, String, Bool, true, false, not, Option, none, some, List, [], ◌∷◌, keep, ◌==◌, if◌then◌else◌,
}
use go_bootstrap.Prelude.Text.{◌+++◌, is_empty}
use go_bootstrap.Errors.{Error, external, sentinel, wrap, Result, ok, err}
use go_bootstrap.Exec.{Exec, pure}
use go_bootstrap.Logging.{Manager, configure}
use go_bootstrap.Db.Pool
use go_bootstrap.Db.Pool.{Pools, Pgx, no_pools}
use go_bootstrap.Webtest.{create_test_db}

pub record Process : Type 0 where
  -- the databases of the server
  pub databases : List String
  -- the database that an open pool of the process holds, be it in db.Conn or left behind
  pub connected : Option String
  pub loggers : Manager

-- What stands around run.
pub record Harness : Type 0 where
  pub os : String → String
  pub to_upper : String → String
  pub text_of : Error → String
  -- the connection to the server and the drop of a stale database, in createTestDB
  pub connect : Option Error
  pub drop_stale : Option Error
  -- the clone of the template at each attempt
  pub clone : ℕ → Option Error
  -- what pgx answers to db.Configure
  pub db : Pgx
  -- the connection and the drop in dropTestDB
  pub connect_again : Option Error
  pub drop_fails : Option Error
  -- what m.Run returns
  pub tests : ℕ

-- fmt.Sprintf("%s_test_%d", projectName(), os.Getpid()), with the process id as a text
unfoldable pub test_db_name : String → String → String
test_db_name project pid = project +++ ("_test_" +++ pid)

abbrev pub without : String → List String → List String
without name names = keep (λ n. not (n == name)) names

is_connected : Option String → String → Bool
is_connected none name = false
is_connected (some other) name = other == name

-- DROP DATABASE IF EXISTS
unfoldable pub drop_database : Option Error → String → Process → Result (Unit {0}) × Process
unfolding is_connected
drop_database (some e) name s = (err e, s)
drop_database none name s =
    if is_connected s.connected name
    then (err (sentinel (external "database is being accessed by other users")), s)
    else (ok tt, record s { databases = without name s.databases })

-- the end of the process: a status, after an error of run 1
unfoldable pub exit_status : Result ℕ → ℕ
exit_status (ok code) = code
exit_status (err e) = 1

module _ (h : Harness) (template_db name : String) where
  unfoldable pub drop_test_db : Process → Process
  drop_test_db s = elim h.connect_again [
    | some e ↦ s
    | none ↦ (drop_database h.drop_fails name s).1
  ]

  -- defer dropTestDB(name)
  then_drop : Exec Process ℕ → Exec Process ℕ
  unfolding drop_test_db
  then_drop body s = ((body s).0, drop_test_db (body s).1)

  -- defer db.Close()
  then_close : Exec Process ℕ → Exec Process ℕ
  then_close body s = ((body s).0, record (body s).1 { connected = none })

  log_settings : String
  log_settings = if is_empty (h.os "TEST_LOGGING") then "_all:warn" else h.os "TEST_LOGGING"

  logging_done : Option Error × Manager → Exec Process ℕ
  logging_done (some e, m) s = (err (wrap "configuring logging" e), record s { loggers = m })
  logging_done (none, m) s = (ok h.tests, record s { loggers = m })

  run_tests : Exec Process ℕ
  unfolding log_settings logging_done
  run_tests s = logging_done (configure h.to_upper log_settings "" s.loggers) s

  -- the database of the pools that db.Configure has made, a pool that it leaves behind with an error
  -- included; that one is taken to hold its connections
  held_by : List String → Option String → Option String
  held_by [] connected = connected
  held_by (dsn ∷ dsns) connected = some dsn

  behind_configure : Result (Unit {0}) × Pools → Exec Process ℕ
  unfolding run_tests then_close held_by
  behind_configure (err e, pools) s = (
    err (wrap ("configuring db " +++ name) e),
    record s { connected = held_by pools.open_pools s.connected },
  )
  behind_configure (ok u, pools) s =
      then_close run_tests (record s { connected = held_by pools.open_pools s.connected })

  -- A pool is known by its database. No pool stands in front of the call.
  with_database : Exec Process ℕ
  unfolding behind_configure
  with_database s = behind_configure (Pool.configure h.db name no_pools) s

  -- createTestDB behind the drop of a stale database
  behind_create : Result (Unit {0}) → Exec Process ℕ
  unfolding with_database then_drop
  behind_create (err e) s = (err e, s)
  behind_create (ok u) s = then_drop with_database (record s { databases = name ∷ s.databases })

  -- the databases when the loop of createTestDB starts
  stale_dropped : Process → Process
  stale_dropped s = elim h.connect [
    | some e ↦ s
    | none ↦ elim h.drop_stale [
      | some e ↦ s
      | none ↦ record s { databases = without name s.databases }
    ]
  ]

  -- none is no end of the loop of createTestDB
  unfoldable pub run_tests_of : Process → Option (Result ℕ × Process)
  unfolding behind_create stale_dropped
  run_tests_of s = elim (create_test_db h.text_of h.clone name template_db h.connect h.drop_stale) [
    | none ↦ none
    | some (r, attempt) ↦ some (behind_create r (stale_dropped s))
  ]
