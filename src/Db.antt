-- ===== src/Db.antt =====
-- db/query.go, db/mutate.go and db/tx.go: typed queries, mutations and transactions. The generated
-- variants of db/conn.gen.go are the same functions on the pool, and have no definition of their own.
pub mod RowMap
pub mod Queries
pub mod Transactions
pub mod Keeping
pub mod Pool
mod Examples
use go_bootstrap.Prelude.{ℕ, suc, String, Bool, Option, none, some, List, if◌then◌else◌}
use go_bootstrap.Errors.{
  Error, is, wrap, detailed, sentinel, not_found, too_many_rows, incorrect_mutation, no_rows,
  pgx_too_many_rows, Result, ok, err,
}
use go_bootstrap.Exec.{Exec, pure, fail, lift, wrapping, attempt, ◌>>=◌, ◌>>◌}
use go_bootstrap.Store.{Tables, Store, Rows, Statement, query}
use go_bootstrap.Platform.{Platform}

module _ (p : Platform) {A : Type 0} where
  unfoldable pub find_all : Statement A → Exec Store (List A)
  find_all sql = do
    rows ← wrapping "db search error querying" (query sql)
    wrapping "db search error collecting" (lift (p.collect_rows A rows))

  first_row : Result A → Result A
  first_row (ok a) = ok a
  first_row (err e) =
      if is e no_rows
      then err (wrap "db find error" (sentinel not_found))
      else err (wrap "db find error collecting" e)

  unfoldable pub find_one : Statement A → Exec Store A
  unfolding first_row
  find_one sql = do
    rows ← wrapping "db find error querying" (query sql)
    lift (first_row (p.collect_one_row A rows))

  only_row : Result A → Result A
  only_row (ok a) = ok a
  only_row (err e) =
      if is e no_rows
      then err (wrap "db find error" (sentinel not_found))
      else if is e pgx_too_many_rows
      then err (wrap "db find error" (sentinel too_many_rows))
      else err (wrap "db find error collecting" e)

  unfoldable pub find_exactly_one : Statement A → Exec Store A
  unfolding only_row
  find_exactly_one sql = do
    rows ← wrapping "db find error querying" (query sql)
    lift (only_row (p.collect_exactly_one_row A rows))

  -- The statement returns the rows of its RETURNING clause.
  unfoldable pub insert : Statement A → Exec Store A
  unfolding find_exactly_one
  insert sql = find_exactly_one sql

-- What Postgres says that a command did (pgconn.CommandTag).
pub data Verb : Type 0 where
  update_rows delete_rows insert_rows other_command : Verb

pub record CommandTag : Type 0 where
  pub verb : Verb
  pub rows_affected : ℕ

abbrev pub Command : Type 0
Command = ℕ → Tables → CommandTag × Tables

-- Queryable.Exec
unfoldable pub exec : Command → Exec Store CommandTag
exec sql s =
    let fault = s.faults s.calls in
    let (tag, after) = sql s.db_now s.tables in
    elim fault.at_call [
      | none ↦ (ok tag, record s { tables = after; calls = suc s.calls })
      | some e ↦ (
        err e,
        record s { tables = if fault.applied then after else s.tables; calls = suc s.calls },
      )
    ]

updated : CommandTag → Verb → Result ℕ
updated tag update_rows = ok tag.rows_affected
updated tag other = err (wrap "did not perform an update" (sentinel incorrect_mutation))

unfoldable pub update : Command → Exec Store ℕ
unfolding updated
update sql = do tag ← exec sql; lift (updated tag tag.verb)

deleted : CommandTag → Verb → Result ℕ
deleted tag delete_rows = ok tag.rows_affected
deleted tag other = err (wrap "did not perform a delete" (sentinel incorrect_mutation))

unfoldable pub delete : Command → Exec Store ℕ
unfolding deleted
delete sql = do tag ← exec sql; lift (deleted tag tag.verb)

-- Conn.Begin, tx.Rollback: a call that changes no table
control : Store → Option Error × Store
control s = ((s.faults s.calls).at_call, record s { calls = suc s.calls })

-- A rollback gives back the tables of the beginning. Its own error is logged and dropped.
rollback : Tables → Store → Store
unfolding control
rollback before s = record (control s).1 { tables = before }

-- tx.Commit. The error of a lost connection leaves open whether the commit took place.
commit : Tables → Store → Option Error × Store
commit before s =
    let fault = s.faults s.calls in
    (
      fault.at_call,
      record s {
        tables = elim fault.at_call [
          | none ↦ s.tables
          | some e ↦ if fault.applied then s.tables else before
        ];
        calls = suc s.calls;
      },
    )

module _ {A : Type 0} where
  committed : A → Option Error × Store → Result A × Store
  committed a (none, s) = (ok a, s)
  committed a (some e, s) = (err (wrap "error committing transaction" e), s)

  finish : Tables → Result A × Store → Result A × Store
  unfolding rollback commit committed
  finish before (err e, s) = (err e, rollback before s)
  finish before (ok a, s) = committed a (commit before s)

  -- InTx
  unfoldable pub in_tx : Exec Store A → Exec Store A
  unfolding control finish
  in_tx fn s =
      let (refused, begun) = control s in
      elim refused [
        | none ↦ finish s.tables (fn begun)
        | some e ↦ (err (wrap "could not open transaction" e), begun)
      ]

-- The same for a function without a result.
unfoldable pub exec_in_tx : Exec Store (Unit {0}) → Exec Store (Unit {0})
exec_in_tx fn = in_tx fn
