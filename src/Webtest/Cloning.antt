-- ===== src/Webtest/Cloning.antt =====
-- The loop of createTestDB in webtest/webtest.go ends.
use go_bootstrap.Prelude.{
  ℕ, zero, suc, ◌+◌, ◌≤◌, ◌≡◌, ◌⊎◌, refl, String, true, Option, none, some, is_some, List, [], ◌∷◌,
  All, leb, Bool-cases, Option-cases, inl, inr, arith,
}
use go_bootstrap.Errors.{Error, Result, ok, err}
use go_bootstrap.Webtest.{gave_up, clone_from, create_test_db}

-- the attempts from one on, as many as are given
abbrev pub attempts : ℕ → ℕ → List ℕ
attempts first zero = []
attempts first (suc n) = first ∷ attempts (suc first) n

module _ (text_of : Error → String) (clone : ℕ → Option Error) (name template_db : String) where
  -- The loop has stopped at attempt `last`, behind `n` attempts from `first` on that failed: the clone has
  -- succeeded, or that was attempt 20.
  pub record Stopped (first n last : ℕ) (r : Result (Unit {0})) : Type 0 where
    pub last-eq : first + n ≡ last
    pub within : last ≤ 20
    pub failures : All (λ i. is_some (clone i) ≡ true) (attempts first n)
    pub outcome :
        ((clone last ≡ none) × (r ≡ ok tt))
        ⊎ ((last ≡ 20)
            × ((e : Error) × (clone last ≡ some e)
                × (r ≡ err (gave_up text_of clone name template_db e))))

  abbrev Ends : ℕ → ℕ → Type 0
  Ends fuel first =
      (r : Result (Unit {0})) × (n : ℕ) × (last : ℕ) × (clone_from text_of clone name template_db
          fuel first
        ≡ some (r, last))
      × Stopped first n last r

  later :
      (first n last : ℕ) (r : Result (Unit {0})) (e : Error)
      → clone first ≡ some e
      → Stopped (suc first) n last r
      → Stopped first (suc n) last r
  later first n last r e h s = record {
    last-eq = omega (arith, s.last-eq);
    within = s.within;
    failures = (rw h refl, s.failures);
    outcome = s.outcome;
  }

  clone_from-Ends : (fuel first : ℕ) → fuel + first ≡ 21 → first ≤ 20 → Ends fuel first
  unfolding clone_from
  clone_from-Ends zero first h k = absurd (omega arith)
  clone_from-Ends (suc fuel) first h k = elim (Option-cases (clone first)) [
    | inl cloned ↦ (
      ok tt,
      0,
      first,
      rw (clone_from, cloned) refl,
      record { last-eq = omega arith; within = k; failures = tt; outcome = inl (cloned, refl) },
    )
    | inr (e, broken) ↦ elim (Bool-cases (leb 20 first)) [
      | inl over ↦ (
        err (gave_up text_of clone name template_db e),
        0,
        first,
        rw (clone_from, broken, over) refl,
        record {
          last-eq = omega arith;
          within = k;
          failures = tt;
          outcome = inr (ground (arith, over), (e, broken, refl));
        },
      )
      | inr early ↦
          let (r, n, last, found, stopped) =
            clone_from-Ends fuel (suc first) (omega arith) (ground (arith, early)) in
          (
            r,
            suc n,
            last,
            rw (clone_from, broken, early) found,
            later first n last r e broken stopped,
          )
    ]
  ]

  pub create_test_db-Stopped :
      (r : Result (Unit {0})) × (n : ℕ) × (last : ℕ) × (create_test_db text_of clone name
          template_db none none
        ≡ some (r, last))
      × Stopped 0 n last r
  unfolding create_test_db
  create_test_db-Stopped = clone_from-Ends 21 0 refl (omega arith)
