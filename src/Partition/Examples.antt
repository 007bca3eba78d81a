-- ===== src/Partition/Examples.antt =====
-- Two rows that parse and one that does not.
use go_bootstrap.Prelude.{ℕ, String, ◌≡◌, refl, [], ◌∷◌, nat_eq, not}
use go_bootstrap.Partition.{ParseResult, results, results_from}

abbrev parse : ℕ → ParseResult ℕ String
parse n = record { value = n; failure = "zero"; is_ok = not (nat_eq n 0) }

two_parse : results parse (3 ∷ 0 ∷ 7 ∷ []) ≡ (3 ∷ 7 ∷ [], "zero" ∷ [])
unfolding results results_from
two_parse = refl
