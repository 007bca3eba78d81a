-- ===== src/Db/Queries.antt =====
-- What the queries of db/query.go return for the rows that a statement gives.
use mathlib.Core.Path.{fun_ext}
use go_bootstrap.Prelude.{
  ℕ, suc, ◌≡◌, refl, ◌⊎◌, ap, sym, ◌∙◌, Option, none, some, List, [], ◌∷◌, arith, if◌then◌else◌,
}
use go_bootstrap.Errors.{
  Error, is, wrap, sentinel, not_found, too_many_rows, no_rows, pgx_too_many_rows, Result, ok, err,
  map_err,
}
use go_bootstrap.Exec.{Exec, continue}
use go_bootstrap.Store.{Tables, Store, Rows, Statement, no_fault, query}
use go_bootstrap.Platform.{Platform}
use go_bootstrap.Db.{
  first_row, only_row, find_one, find_exactly_one, find_all, Command, exec, update,
}

module _ {A : Type 0} where
  -- the only row of a result
  unfoldable pub only : List A → Option Error → Result A
  only xs (some e) =
      if is e no_rows
      then err (wrap "db find error" (sentinel not_found))
      else if is e pgx_too_many_rows
      then err (wrap "db find error" (sentinel too_many_rows))
      else err (wrap "db find error collecting" e)
  only [] none = err (wrap "db find error" (sentinel not_found))
  only (x ∷ []) none = ok x
  only (x ∷ y ∷ xs) none = err (wrap "db find error" (sentinel too_many_rows))

  only-rows :
      (p : Platform) (xs : List A) (e : Option Error)
      → only_row p (p.collect_exactly_one_row A (record { items = xs; broken = e })) ≡ only xs e
  unfolding only only_row
  only-rows p xs (some e) = rw (p.exactly_one_broken A xs e)
  only-rows p [] none = rw (p.exactly_one_nil A)
  only-rows p (x ∷ []) none = rw (p.exactly_one_single A x)
  only-rows p (x ∷ y ∷ xs) none = rw (p.exactly_one_many A x y xs)

  abbrev only_of : Result (Rows A) → Result A
  only_of (ok r) = only r.items r.broken
  only_of (err e) = err (wrap "db find error querying" e)

  -- The query with the collection read off its rows.
  unfoldable pub ask : Statement A → Exec Store A
  ask sql s = (only_of (query sql s).0, (query sql s).1)

  continue-only :
      (p : Platform) (r : Result (Rows A)) (s : Store)
      → continue {S = Store} {B = A}
          (map_err (wrap "db find error querying") r)
          (λ rows s'. (only_row p (p.collect_exactly_one_row A rows), s'))
          s
        ≡ (only_of r, s)
  continue-only p (ok rows) s = rw (only-rows p rows.items rows.broken)
  continue-only p (err e) s = refl

  -- pgx's collection drops out of `find_exactly_one`.
  pub find_exactly_one-ask : (p : Platform) → find_exactly_one p {A = A} ≡ ask
  unfolding find_exactly_one ask query
  find_exactly_one-ask p =
      fun_ext λ sql. fun_ext λ s. continue-only p (query sql s).0 (query sql s).1

  -- the first row of a result
  abbrev pub first : List A → Result A
  first [] = err (wrap "db find error" (sentinel not_found))
  first (x ∷ xs) = ok x

  first-rows :
      (p : Platform) (xs : List A)
      → first_row p (p.collect_one_row A (record { items = xs; broken = none })) ≡ first xs
  unfolding first_row
  first-rows p [] = rw (p.one_row_nil A)
  first-rows p (x ∷ xs) = rw (p.one_row_cons A x xs)

  -- What the rows of a statement give when no call fails.
  pub record Gives (p : Platform) (sql : Statement A) (s : Store) (xs : List A) (after : Tables)
      : Type 0 where
    pub all : (find_all p sql s).0 ≡ ok xs
    pub one : (find_one p sql s).0 ≡ first xs
    pub exactly_one : (find_exactly_one p sql s).0 ≡ only xs none
    pub all_tables : (find_all p sql s).1.tables ≡ after
    pub one_tables : (find_one p sql s).1.tables ≡ after
    pub exactly_one_tables : (find_exactly_one p sql s).1.tables ≡ after

  pub query_ok :
      (sql : Statement A) (s : Store) (xs : List A) (after : Tables)
      → s.faults s.calls ≡ no_fault
      → sql s.db_now s.tables ≡ (record { items = xs; broken = none }, after)
      → query sql s ≡ (
        ok (record { items = xs; broken = none }),
        record s { tables = after; calls = suc s.calls },
      )
  unfolding query
  query_ok sql s xs after h k = ground arith

  ask-eq :
      (sql : Statement A) (s : Store) (xs : List A) (e : Option Error) (after : Tables)
      → s.faults s.calls ≡ no_fault
      → sql s.db_now s.tables ≡ (record { items = xs; broken = e }, after)
      → ask sql s ≡ (only xs e, record s { tables = after; calls = suc s.calls })
  unfolding ask query
  ask-eq sql s xs e after h k = ground arith

  -- The result and the store of a query whose call does not fail.
  pub find_exactly_one-eq :
      (p : Platform) (sql : Statement A) (s : Store) (xs : List A) (e : Option Error)
      (after : Tables)
      → s.faults s.calls ≡ no_fault
      → sql s.db_now s.tables ≡ (record { items = xs; broken = e }, after)
      → find_exactly_one p sql s ≡ (only xs e, record s { tables = after; calls = suc s.calls })
  find_exactly_one-eq p sql s xs e after h k =
      ap (λ f. f sql s) (find_exactly_one-ask p) ∙ ask-eq sql s xs e after h k

  -- If the call does not fail and the statement gives the rows `xs` and leaves the tables `after`:
  -- `find_all` returns all of `xs`; `find_one` the first of them, or not-found; `find_exactly_one`
  -- the row if it is the only one, and else not-found or too-many-rows; and each leaves `after`.
  pub find_lem :
      (p : Platform) (sql : Statement A) (s : Store) (xs : List A) (after : Tables)
      → s.faults s.calls ≡ no_fault
      → sql s.db_now s.tables ≡ (record { items = xs; broken = none }, after)
      → Gives p sql s xs after
  unfolding find_all find_one find_exactly_one
  find_lem p sql s xs after h k =
      let q = query_ok sql s xs after h k in
      record {
        all = rw q (rw (p.collect_rows_ok A xs));
        one = rw q (first-rows p xs);
        exactly_one = rw q (only-rows p xs none);
        all_tables = rw q;
        one_tables = rw q;
        exactly_one_tables = rw q;
      }

  only-ok : (xs : List A) (e : Option Error) (x : A) → only xs e ≡ ok x → (xs ≡ x ∷ []) × (e ≡ none)
  unfolding only
  only-ok xs (some e) x h = ground arith
  only-ok [] none x h = cc
  only-ok (y ∷ []) none x h = ground arith
  only-ok (y ∷ z ∷ xs) none x h = cc

  query-eq-ok :
      (sql : Statement A) (s : Store) (rows : Rows A)
      → (query sql s).0 ≡ ok rows
      → rows.items ≡ (sql s.db_now s.tables).0.items
  unfolding query
  query-eq-ok sql s rows h = ground arith

  ask-ok :
      (sql : Statement A) (s : Store) (r : Result (Rows A)) (x : A)
      → (query sql s).0 ≡ r
      → only_of r ≡ ok x
      → (sql s.db_now s.tables).0.items ≡ x ∷ []
  ask-ok sql s (ok rows) x q h =
      sym (query-eq-ok sql s rows q) ∙ (only-ok rows.items rows.broken x h).0
  ask-ok sql s (err e) x q h = cc

  -- Whatever fails, a row that `find_exactly_one` returns is the only one of the statement.
  pub find_exactly_one-eq-ok :
      (p : Platform) (sql : Statement A) (s : Store) (x : A)
      → (find_exactly_one p sql s).0 ≡ ok x
      → (sql s.db_now s.tables).0.items ≡ x ∷ []
  find_exactly_one-eq-ok p sql s x h =
      ask-ok sql s (query sql s).0 x refl
        (unfold ask in sym (ap (λ f. (f sql s).0) (find_exactly_one-ask p)) ∙ h)

  pub query-tables :
      (sql : Statement A) (s : Store)
      → ((query sql s).1.tables ≡ s.tables) ⊎ ((query sql s).1.tables ≡ (sql s.db_now s.tables).1)
  unfolding query
  query-tables sql s = ground arith

  -- Whatever fails, a query leaves the tables as they were or as its statement leaves them.
  pub tables-find_exactly_one :
      (p : Platform) (sql : Statement A) (s : Store)
      → ((find_exactly_one p sql s).1.tables ≡ s.tables)
        ⊎ ((find_exactly_one p sql s).1.tables ≡ (sql s.db_now s.tables).1)
  tables-find_exactly_one p sql s = rw (find_exactly_one-ask p) (unfold ask in query-tables sql s)

  query-selects :
      (sql : Statement A) (s : Store)
      → (sql s.db_now s.tables).1 ≡ s.tables
      → (query sql s).1 ≡ record s { calls = suc s.calls }
  unfolding query
  query-selects sql s h = ground arith

  -- Whatever fails, a statement that changes no table only counts a call.
  pub find_exactly_one-selects :
      (p : Platform) (sql : Statement A) (s : Store)
      → (sql s.db_now s.tables).1 ≡ s.tables
      → (find_exactly_one p sql s).1 ≡ record s { calls = suc s.calls }
  find_exactly_one-selects p sql s h =
      rw (find_exactly_one-ask p) (unfold ask in query-selects sql s h)

-- A mutation that reports no error has been carried out.
pub update-eq-ok :
    (sql : Command) (s : Store) (n : ℕ)
    → (update sql s).0 ≡ ok n
    → (update sql s).1 ≡ record s { tables = (sql s.db_now s.tables).1; calls = suc s.calls }
unfolding update exec
update-eq-ok sql s n h = ground arith

-- A command whose call does not fail.
pub exec_ok :
    (sql : Command) (s : Store)
    → (s.faults s.calls).at_call ≡ none
    → exec sql s ≡ (
      ok (sql s.db_now s.tables).0,
      record s { tables = (sql s.db_now s.tables).1; calls = suc s.calls },
    )
unfolding exec
exec_ok sql s h = ground arith
