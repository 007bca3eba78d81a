-- ===== src/Store.antt =====
-- The state that the packages share through Postgres and the process: the tables that
-- migrations/001, 003, 005 and 006 create, the clocks, the randomness and the mail that was sent.
-- Times are microseconds. `faults` says, for every call of the driver, whether it fails.
pub mod Demo
use go_bootstrap.Prelude.{ℕ, suc, String, Bool, true, Option, none, some, List, if◌then◌else◌}
use go_bootstrap.Errors.{Error, ok, err}
use go_bootstrap.Exec.{Exec}

-- auth/users.gen.go
pub record User : Type 0 where
  pub id : ℕ
  pub email : String
  pub password_hash : String
  pub name : String
  pub roles : List String
  pub created_at : ℕ
  pub updated_at : ℕ

-- auth/password_reset_tokens.gen.go
pub record PasswordResetToken : Type 0 where
  pub id : ℕ
  pub user_id : ℕ
  pub token_hash : String
  pub expires_at : ℕ
  pub used_at : Option ℕ
  pub created_at : ℕ

-- a row of throttle_attempts
pub record Attempt : Type 0 where
  pub key : String
  pub attempted_at : ℕ

-- jobs.PasswordResetEmailArgs, as a row of river_job
pub record PasswordResetEmailArgs : Type 0 where
  pub email : String

-- mailer.Message
pub record Message : Type 0 where
  pub to : String
  pub subject : String
  pub body : String

pub record Tables : Type 0 where
  pub users : List User
  pub next_user_id : ℕ
  pub tokens : List PasswordResetToken
  pub next_token_id : ℕ
  pub attempts : List Attempt
  pub jobs : List PasswordResetEmailArgs

-- How one call of the driver fails: at the call itself, or while its rows are read. `applied` says
-- whether Postgres had carried the statement out all the same.
pub record Fault : Type 0 where
  pub at_call : Option Error
  pub at_rows : Option Error
  pub applied : Bool

abbrev pub no_fault : Fault
no_fault = record { at_call = none; at_rows = none; applied = true }

pub record Store : Type 0 where
  pub tables : Tables
  -- now() of Postgres, and time.Now() of the process
  pub db_now : ℕ
  pub app_now : ℕ
  -- the calls of the driver so far, and how each one fares
  pub calls : ℕ
  pub faults : ℕ → Fault
  -- the reads of crypto/rand so far
  pub draws : ℕ
  -- the argon2 compares so far, and the hash slots in use
  pub compares : ℕ
  pub slots : ℕ
  -- the messages that were handed to mailer.Outbox
  pub outbox : List Message

-- The rows that a query gives, and the error that ends them.
pub record Rows (A : Type 0) : Type 0 where
  pub items : List A
  pub broken : Option Error

-- A SQL statement with its arguments: what it does at a time to the tables, and the rows it returns.
abbrev pub Statement : Type 0 → Type 0
Statement A = ℕ → Tables → Rows A × Tables

abbrev first_error : Option Error → Option Error → Option Error
first_error none e = e
first_error (some d) e = some d

-- Queryable.Query
unfoldable pub query : {A : Type 0} → Statement A → Exec Store (Rows A)
query sql s =
    let fault = s.faults s.calls in
    let (rows, after) = sql s.db_now s.tables in
    let tables : Tables = elim (first_error fault.at_call fault.at_rows) [
      | none ↦ after
      | some e ↦ if fault.applied then after else s.tables
    ] in
    let s' : Store = record s { tables = tables; calls = suc s.calls } in
    elim fault.at_call [
      | none ↦
          (ok (record { items = rows.items; broken = first_error fault.at_rows rows.broken }), s')
      | some e ↦ (err e, s')
    ]
