-- ===== src/Webtest.antt =====
-- webtest/webtest.go: the database that a test package clones from the template. The connection to the
-- server is a parameter: whether it opens, what the drop of a stale database answers, and what the clone
-- answers at each attempt. Sleeping between two attempts is not modelled.
pub mod Cloning
pub mod Process
pub mod Client
pub mod Server
pub mod Request
mod Examples
use go_bootstrap.Prelude.{
  ℕ, zero, suc, ◌+◌, String, Bool, true, false, Option, none, some, List, [], ◌∷◌, leb,
  if◌then◌else◌,
}
use go_bootstrap.Prelude.Text.{◌+++◌, is_empty, contains}
use go_bootstrap.Errors.{Error, wrap, Result, ok, err}

-- TEMPLATE_DB, or a name from the project's
unfoldable pub template_db_name : (String → String) → String → String
template_db_name os project_name =
    if is_empty (os "TEMPLATE_DB") then project_name +++ "_template" else os "TEMPLATE_DB"

-- none is the panic without build information
unfoldable pub project_name : String → Option String
project_name postgres_name = if is_empty postgres_name then none else some postgres_name

module _ (text_of : Error → String) (clone : ℕ → Option Error) (name template_db : String) where
  unfoldable pub gave_up : Error → Error
  gave_up e =
      if contains (text_of e) "does not exist"
      then wrap ("template database " +++ (template_db +++ " missing — run bin/testdb first")) e
      else wrap ("creating test db " +++ (name +++ " from template")) e

  -- the loop of createTestDB, from an attempt on: its result and its last attempt, or none where the
  -- fuel is used up
  unfoldable pub clone_from : ℕ → ℕ → Option (Result (Unit {0}) × ℕ)
  unfolding gave_up
  clone_from zero attempt = none
  clone_from (suc fuel) attempt = elim (clone attempt) [
    | none ↦ some (ok tt, attempt)
    | some e ↦ elim (leb 20 attempt) [
      | true ↦ some (err (gave_up e), attempt)
      | false ↦ clone_from fuel (suc attempt)
    ]
  ]

  -- createTestDB, with `connect` and `drop` as the connection and the drop answer
  unfoldable pub create_test_db : Option Error → Option Error → Option (Result (Unit {0}) × ℕ)
  create_test_db (some e) drop = some (err (wrap "connecting to admin db" e), 0)
  create_test_db none (some e) = some (err (wrap ("dropping stale test db " +++ name) e), 0)
  create_test_db none none = clone_from 21 0
