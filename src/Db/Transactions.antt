-- ===== src/Db/Transactions.antt =====
-- Transactions are atomic.
use go_bootstrap.Prelude.{
  suc, ◌≡◌, refl, ◌⊎◌, inl, inr, Option, none, some, ◌∙◌, Option-cases, arith,
}
use go_bootstrap.Errors.{Error, Result, ok, err}
use go_bootstrap.Exec.{Exec}
use go_bootstrap.Store.{Tables, Store}
use go_bootstrap.Db.{finish, committed, commit, in_tx}

-- the store in which the function of a transaction starts
abbrev pub begun : Store → Store
begun s = record s { calls = suc s.calls }

commit-tables :
    (before : Tables) (s : Store)
    → ((commit before s).1.tables ≡ before) ⊎ ((commit before s).1.tables ≡ s.tables)
unfolding commit
commit-tables before s = ground arith

module _ {A : Type 0} where
  tables-committed : (a : A) (r : Option Error × Store) → (committed a r).1.tables ≡ r.1.tables
  unfolding committed
  tables-committed a (none, s) = refl
  tables-committed a (some e, s) = refl

  abbrev IsAtomic : Tables → Result A × Store → Result A × Store → Type 0
  IsAtomic before inner outer =
      (outer.1.tables ≡ before) ⊎ ((a : A) × (inner.0 ≡ ok a) × (outer.1.tables ≡ inner.1.tables))

  finish-IsAtomic : (before : Tables) (r : Result A × Store) → IsAtomic before r (finish before r)
  unfolding finish
  finish-IsAtomic before (err e, s) = inl refl
  finish-IsAtomic before (ok a, s) = elim (commit-tables before s) [
    | inl undone ↦ inl (tables-committed a (commit before s) ∙ undone)
    | inr done ↦ inr (a, refl, tables-committed a (commit before s) ∙ done)
  ]

  finish-ok :
      (before : Tables) (r : Result A × Store) (a : A)
      → (finish before r).0 ≡ ok a
      → (r.0 ≡ ok a) × ((finish before r).1.tables ≡ r.1.tables)
  unfolding finish
  finish-ok before (err e, s) a h = cc
  finish-ok before (ok b, s) a h = ground arith

  -- A transaction leaves the tables as they were, or it leaves them as its function left them when it
  -- succeeded.
  pub in_tx-atomic :
      (fn : Exec Store A) (s : Store)
      → ((in_tx fn s).1.tables ≡ s.tables)
        ⊎ ((a : A) × ((fn (begun s)).0 ≡ ok a) × ((in_tx fn s).1.tables ≡ (fn (begun s)).1.tables))
  unfolding in_tx
  in_tx-atomic fn s = elim (Option-cases (s.faults s.calls).at_call) [
    | inl opened ↦ rw (opened, in_tx) (finish-IsAtomic s.tables (fn (begun s)))
    | inr (e, refused) ↦ inl (rw (refused, in_tx) refl)
  ]

  -- A transaction that succeeds has run its function to the same result, and keeps all its writes.
  pub in_tx-ok :
      (fn : Exec Store A) (s : Store) (a : A)
      → (in_tx fn s).0 ≡ ok a
      → ((fn (begun s)).0 ≡ ok a) × ((in_tx fn s).1.tables ≡ (fn (begun s)).1.tables)
  unfolding in_tx
  in_tx-ok fn s a h = ground (arith, finish-ok s.tables (fn (begun s)) a)

  -- A transaction whose function fails gives back the tables and passes the error on.
  pub in_tx-err :
      (fn : Exec Store A) (s : Store) (e : Error)
      → (s.faults s.calls).at_call ≡ none
      → (fn (begun s)).0 ≡ err e
      → ((in_tx fn s).0 ≡ err e) × ((in_tx fn s).1.tables ≡ s.tables)
  unfolding in_tx
  in_tx-err fn s e h k = ground arith
