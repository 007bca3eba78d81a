-- ===== src/Partition.antt =====
-- Package partition: the rows that parse, and the failures of those that do not.
mod Examples
use go_bootstrap.Prelude.{
  ◌+◌, ◌≡◌, refl, Bool, true, false, not, List, [], ◌∷◌, ◌++◌, map, keep, length, length-append,
  append-nil, append_assoc, Bool-cases, inl, inr, arith, if◌then◌else◌,
}

pub record ParseResult {ℓ κ} (V : Type ℓ) (E : Type κ) : Type (ℓ ⊔ κ) where
  pub value : V
  pub failure : E
  pub is_ok : Bool

module _ {ρ ℓ κ} {R : Type ρ} {V : Type ℓ} {E : Type κ} (parse : R → ParseResult V E) where
  -- the loop of Results
  unfoldable pub results_from : List R → List V → List E → List V × List E
  results_from [] values failures = (values, failures)
  results_from (r ∷ rows) values failures =
      let res = parse r in
      if res.is_ok
      then results_from rows (values ++ res.value ∷ []) failures
      else results_from rows values (failures ++ res.failure ∷ [])

  unfoldable pub results : List R → List V × List E
  results rows = results_from rows [] []

  abbrev pub parsed : List R → List V
  parsed rows = map (λ r. (parse r).value) (keep (λ r. (parse r).is_ok) rows)

  abbrev pub failed : List R → List E
  failed rows = map (λ r. (parse r).failure) (keep (λ r. not (parse r).is_ok) rows)

  results_from_lem :
      (rows : List R) (values : List V) (failures : List E)
      → results_from rows values failures ≡ (values ++ parsed rows, failures ++ failed rows)
  unfolding results_from
  results_from_lem [] values failures = rw (append-nil values, append-nil failures) refl
  results_from_lem (r ∷ rows) values failures = elim (Bool-cases (parse r).is_ok) [
    | inl good ↦ simp (
      good,
      results_from_lem rows (values ++ (parse r).value ∷ []) failures,
      append_assoc values ((parse r).value ∷ []) (parsed rows),
    )
    | inr bad ↦ simp (
      bad,
      results_from_lem rows values (failures ++ (parse r).failure ∷ []),
      append_assoc failures ((parse r).failure ∷ []) (failed rows),
    )
  ]

  -- Results parses every row once: the values of the rows that parse stand in the first slice and the
  -- failures of the others in the second, each in the order of the rows.
  pub results_lem : (rows : List R) → results rows ≡ (parsed rows, failed rows)
  unfolding results
  results_lem rows = results_from_lem rows [] []
