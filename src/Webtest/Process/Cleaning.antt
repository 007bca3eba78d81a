-- ===== src/Webtest/Process/Cleaning.antt =====
-- A run of tests leaves no database behind.
use go_bootstrap.Prelude.{
  ℕ, String, ◌≡◌, refl, sym, ap, subst, ◌∙◌, false, Option, none, some, List, [], ◌∷◌, any, ◌==◌,
  eq_refl, Option-cases, Bool-cases, inl, inr, arith,
}
use go_bootstrap.Errors.{Error, Result, ok, err}
use go_bootstrap.Logging.{Manager}
use go_bootstrap.Webtest.{create_test_db}
use go_bootstrap.Webtest.Cloning.{create_test_db-Stopped}
use go_bootstrap.Db.Pool.{Pools, no_pools, configure-Outcome}
use go_bootstrap.Db.Pool
use go_bootstrap.Webtest.Process.{
  Process, Harness, without, is_connected, drop_database, drop_test_db, then_drop, then_close,
  logging_done, run_tests, held_by, behind_configure, with_database, behind_create, stale_dropped,
  run_tests_of,
}

without-absent :
    (name : String) (names : List String)
    → any (λ n. n == name) names ≡ false
    → without name names ≡ names
without-absent name [] h = refl
without-absent name (n ∷ names) h = elim (Bool-cases (n == name)) [
  | inl same ↦ absurd (ground (arith, same))
  | inr other ↦ rw other (ap (◌∷◌ n) (without-absent name names (ground (arith, other))))
]

without-cons :
    (name : String) (names : List String) → without name (name ∷ names) ≡ without name names
without-cons name names = rw (eq_refl name) refl

-- what a part of run that the deferred calls stand around leaves
abbrev IsClosed : Process → Process → Type 0
IsClosed s s' = (s'.databases ≡ s.databases) × (s'.connected ≡ none)

module _ (h : Harness) (template_db name : String) where
  logging_done-databases :
      (r : Option Error × Manager) (s : Process)
      → (logging_done h template_db name r s).1.databases ≡ s.databases
  unfolding logging_done
  logging_done-databases (none, m) s = refl
  logging_done-databases (some e, m) s = refl

  behind_configure-Closed :
      (e : Error) (r : Result (Unit {0}) × Pools) (s : Process)
      → r.0 ≡ err e
      → r.1.open_pools ≡ []
      → s.connected ≡ none
      → IsClosed s (behind_configure h template_db name r s).1
  unfolding behind_configure held_by
  behind_configure-Closed e (ok u, pools) s failed k closed = absurd cc
  behind_configure-Closed e (err d, pools) s failed k closed =
      (refl, ap (λ dsns. held_by h template_db name dsns s.connected) k ∙ closed)

  with_database-Closed :
      (s : Process)
      → h.db.ping ≡ ok tt
      → s.connected ≡ none
      → IsClosed s (with_database h template_db name s).1
  unfolding with_database behind_configure held_by then_close run_tests
  with_database-Closed s up closed = elim (configure-Outcome h.db name no_pools) [
    | inl (made, _) ↦
        subst (λ r. IsClosed s (behind_configure h template_db name r s).1) (sym made)
          (logging_done-databases _ _, refl)
    | inr (e, failed, _, inl none') ↦
        behind_configure-Closed e (Pool.configure h.db name no_pools) s failed none' closed
    | inr (e, failed, _, inr (_, (d, down, _))) ↦ absurd (cc (up, down))
  ]

  dropped-eq :
      (s : Process)
      → h.connect_again ≡ none
      → h.drop_fails ≡ none
      → s.connected ≡ none
      → drop_test_db h template_db name s ≡ record s { databases = without name s.databases }
  unfolding drop_test_db drop_database is_connected
  dropped-eq s again drops closed =
      simp (drop_test_db, again, drops, drop_database, closed, is_connected)

  drop_test_db-drops :
      (s s' : Process)
      → h.connect_again ≡ none
      → h.drop_fails ≡ none
      → s'.connected ≡ none
      → s'.databases ≡ name ∷ s.databases
      → without name s.databases ≡ s.databases
      → IsClosed s (drop_test_db h template_db name s')
  unfolding drop_test_db drop_database
  drop_test_db-drops s s' again drops closed databases absent =
      let dropped = dropped-eq s' again drops closed in
      (
        ap (λ s. s.databases) dropped
            ∙ (ap (without name) databases ∙ (without-cons name s.databases ∙ absent)),
        ap (λ s. s.connected) dropped ∙ closed,
      )

  behind_create-Closed :
      (r : Result (Unit {0})) (s : Process)
      → h.db.ping ≡ ok tt
      → h.connect_again ≡ none
      → h.drop_fails ≡ none
      → s.connected ≡ none
      → without name s.databases ≡ s.databases
      → IsClosed s (behind_create h template_db name r s).1
  unfolding behind_create then_drop
  behind_create-Closed (err e) s up again drops closed absent = (refl, closed)
  behind_create-Closed (ok u) s up again drops closed absent =
      let (databases, ended) =
        with_database-Closed (record s { databases = name ∷ s.databases }) up closed in
      drop_test_db-drops s _ again drops ended databases absent

  stale_dropped-Closed :
      (s : Process)
      → s.connected ≡ none
      → without name s.databases ≡ s.databases
      → IsClosed s (stale_dropped h template_db name s)
  unfolding stale_dropped
  stale_dropped-Closed s closed absent = elim (Option-cases h.connect) [
    | inr (e, refused) ↦ rw (stale_dropped, refused) (refl, closed)
    | inl open' ↦ elim (Option-cases h.drop_stale) [
      | inr (e, failed) ↦ rw (stale_dropped, open', failed) (refl, closed)
      | inl gone ↦ rw (stale_dropped, open', gone) (absent, closed)
    ]
  ]

  create_test_db-ends :
      (connect drop : Option Error)
      → (r : Result (Unit {0})) × (attempt : ℕ) × (create_test_db h.text_of h.clone name template_db
            connect drop
          ≡ some (r, attempt))
  unfolding create_test_db
  create_test_db-ends (some e) drop = (_, _, refl)
  create_test_db-ends none (some e) = (_, _, refl)
  create_test_db-ends none none =
      let (r, n, last, found, stopped) =
        create_test_db-Stopped h.text_of h.clone name template_db in
      (r, last, found)

  -- Where the server has no database of the name, the process has no pool, the ping of db.Configure does
  -- not fail, and the drop at the end can connect and does not fail by itself, run ends and leaves the
  -- databases of the server as they were and no pool open: whichever other call of the creation, of the pool
  -- or of the loggers fails, and however the tests end. The pool is closed before the drop, which would fail
  -- while it is open.
  pub run_tests_of-Closed :
      (s : Process)
      → any (λ n. n == name) s.databases ≡ false
      → s.connected ≡ none
      → h.db.ping ≡ ok tt
      → h.connect_again ≡ none
      → h.drop_fails ≡ none
      → (r : Result ℕ) × (s' : Process) × (run_tests_of h template_db name s ≡ some (r, s'))
        × (s'.databases ≡ s.databases)
        × (s'.connected ≡ none)
  unfolding run_tests_of
  run_tests_of-Closed s fresh closed up again drops =
      let absent = without-absent name s.databases fresh in
      let (r, attempt, created) = create_test_db-ends h.connect h.drop_stale in
      let (kept, still) = stale_dropped-Closed s closed absent in
      let (databases, ended) =
        behind_create-Closed r (stale_dropped h template_db name s) up again drops still
          (ap (without name) kept ∙ (absent ∙ sym kept)) in
      (
        (behind_create h template_db name r (stale_dropped h template_db name s)).0,
        (behind_create h template_db name r (stale_dropped h template_db name s)).1,
        rw (run_tests_of, created) refl,
        databases ∙ kept,
        ended,
      )
