-- ===== src/Db/Keeping.antt =====
-- Calls of package db that keep a view of the tables: each of them leaves the tables as they were or as
-- its statement leaves them.
use go_bootstrap.Prelude.{ℕ, ◌≡◌, refl, ap, ◌∙◌, ◌⊎◌, inl, inr, arith}
use go_bootstrap.Exec.{Exec}
use go_bootstrap.Exec.Keeping.{Keeps, continue-Shows}
use go_bootstrap.Store.{Tables, Store, Statement, query}
use go_bootstrap.Platform.{Platform}
use go_bootstrap.Db.{find_exactly_one, Command, exec, update, in_tx}
use go_bootstrap.Db.Queries.{query-tables, tables-find_exactly_one}
use go_bootstrap.Db.Transactions.{in_tx-atomic, begun}

module _ {V : Type 0} (view : Tables → V) where
  abbrev pub in_store : Store → V
  in_store s = view s.tables

  either-same :
      {t t' after : Tables} → view after ≡ view t → (t' ≡ t) ⊎ (t' ≡ after) → view t' ≡ view t
  either-same h (inl same) = ap view same
  either-same h (inr done) = ap view done ∙ h

  pub find_exactly_one-Keeps :
      {A : Type 0} (p : Platform) (sql : Statement A)
      → ((now : ℕ) (t : Tables) → view (sql now t).1 ≡ view t)
      → Keeps in_store (find_exactly_one p sql)
  find_exactly_one-Keeps p sql h s =
      either-same (h s.db_now s.tables) (tables-find_exactly_one p sql s)

  pub query-Keeps :
      {A : Type 0} (sql : Statement A)
      → ((now : ℕ) (t : Tables) → view (sql now t).1 ≡ view t)
      → Keeps in_store (query sql)
  query-Keeps sql h s = either-same (h s.db_now s.tables) (query-tables sql s)

  exec-tables :
      (sql : Command) (s : Store)
      → ((exec sql s).1.tables ≡ s.tables) ⊎ ((exec sql s).1.tables ≡ (sql s.db_now s.tables).1)
  unfolding exec
  exec-tables sql s = ground arith

  pub exec-Keeps :
      (sql : Command)
      → ((now : ℕ) (t : Tables) → view (sql now t).1 ≡ view t)
      → Keeps in_store (exec sql)
  exec-Keeps sql h s = either-same (h s.db_now s.tables) (exec-tables sql s)

  pub update-Keeps :
      (sql : Command)
      → ((now : ℕ) (t : Tables) → view (sql now t).1 ≡ view t)
      → Keeps in_store (update sql)
  unfolding update
  update-Keeps sql h s =
      continue-Shows in_store (exec sql s).0 _ _ (exec-Keeps sql h s) (λ tag s. refl)

  pub in_tx-Keeps : {A : Type 0} (fn : Exec Store A) → Keeps in_store fn → Keeps in_store (in_tx fn)
  in_tx-Keeps fn h s = elim (in_tx-atomic fn s) [
    | inl undone ↦ ap view undone
    | inr (a, returned, done) ↦ ap view done ∙ h (begun s)
  ]
