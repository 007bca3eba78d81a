-- ===== src/Webtest/Examples.antt =====
-- A template that is busy at the first attempt.
use go_bootstrap.Prelude.{ℕ, ◌≡◌, refl, Option, none, some, [], ◌∷◌, leb, if◌then◌else◌}
use go_bootstrap.Errors.{Error, sentinel, pg_error, Result, ok}
use go_bootstrap.Webtest.{create_test_db, clone_from}
use go_bootstrap.Logging.{Manager, empty_config, info}
use go_bootstrap.Webtest.Process.{Process, Harness, drop_database, run_tests_of}
use go_bootstrap.Webtest.Process.Cleaning.{run_tests_of-Closed}

-- SQLSTATE 55006, object_in_use
abbrev busy : ℕ → Option Error
busy attempt = if leb 1 attempt then none else some (sentinel (pg_error "55006" ""))

busy_run : create_test_db (λ e. "busy") busy "app_test_7" "app_template" none none ≡ some (ok tt, 1)
unfolding create_test_db clone_from
busy_run = refl

abbrev quiet : Manager
quiet = record { config = empty_config (λ s. s) "_all" info; handlers = [] }

-- the template is busy at the first attempt, and the tests fail
abbrev busy_harness : Harness
busy_harness = record {
  os = λ name. "";
  to_upper = λ s. "WARN";
  text_of = λ e. "busy";
  connect = none;
  drop_stale = none;
  clone = busy;
  db = record { parse_config = λ dsn. ok tt; new_pool = ok tt; ping = ok tt };
  connect_again = none;
  drop_fails = none;
  tests = 1;
}

abbrev before : Process
before = record { databases = "app" ∷ []; connected = none; loggers = quiet }

run_tests_of-Closed_example :
    (r : Result ℕ) × (s' : Process) × (run_tests_of busy_harness "app_template" "app_test_7" before
      ≡ some (r, s'))
    × (s'.databases ≡ "app" ∷ [])
    × (s'.connected ≡ none)
run_tests_of-Closed_example =
    run_tests_of-Closed busy_harness "app_template" "app_test_7" before refl refl refl refl refl

-- a drop in front of the end of the pool leaves the database
drop_while_open :
    (drop_database none "app_test_7"
      (record before { databases = "app_test_7" ∷ []; connected = some "app_test_7" })).1.databases
    ≡ "app_test_7" ∷ []
unfolding drop_database
drop_while_open = refl
