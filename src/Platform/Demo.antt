-- ===== src/Platform/Demo.antt =====
-- A concrete platform for the tests: texts are their own digests, a hash is the password behind a
-- mark, and the random tokens count up.
use go_bootstrap.Prelude.{ℕ, zero, suc, String, ◌≡◌, refl, Option, none, some, List, [], ◌∷◌, ◌==◌}
use go_bootstrap.Prelude.Text.{◌+++◌}
use go_bootstrap.Errors.{Error, sentinel, no_rows, pgx_too_many_rows, Result, ok, err}
use go_bootstrap.Platform.{Platform}

module _ (A : Type 0) where
  abbrev pub every_of : List A → Option Error → Result (List A)
  every_of xs none = ok xs
  every_of xs (some e) = err e

  abbrev pub leading_of : List A → Option Error → Result A
  leading_of xs (some e) = err e
  leading_of [] none = err (sentinel no_rows)
  leading_of (x ∷ xs) none = ok x

  abbrev pub sole_of : List A → Option Error → Result A
  sole_of xs (some e) = err e
  sole_of [] none = err (sentinel no_rows)
  sole_of (x ∷ []) none = ok x
  sole_of (x ∷ y ∷ xs) none = err (sentinel pgx_too_many_rows)

  pub first_broken : (xs : List A) (e : Error) → leading_of xs (some e) ≡ err e
  first_broken [] e = refl
  first_broken (x ∷ xs) e = refl

  pub sole_broken : (xs : List A) (e : Error) → sole_of xs (some e) ≡ err e
  sole_broken [] e = refl
  sole_broken (x ∷ []) e = refl
  sole_broken (x ∷ y ∷ xs) e = refl

abbrev nth_token : ℕ → String
nth_token zero = "token"
nth_token (suc n) = "t" +++ nth_token n

abbrev pub demo : Platform
demo = record {
  collect_rows = λ A r. every_of A r.items r.broken;
  collect_one_row = λ A r. leading_of A r.items r.broken;
  collect_exactly_one_row = λ A r. sole_of A r.items r.broken;
  collect_rows_ok = λ A xs. refl;
  collect_rows_broken = λ A xs e. refl;
  one_row_nil = λ A. refl;
  one_row_cons = λ A x xs. refl;
  one_row_broken = λ A xs e. first_broken A xs e;
  exactly_one_nil = λ A. refl;
  exactly_one_single = λ A x. refl;
  exactly_one_many = λ A x y xs. refl;
  exactly_one_broken = λ A xs e. sole_broken A xs e;
  create_hash = λ n password. ok ("hash:" +++ password);
  compare_hash = λ password hash. ok (("hash:" +++ password) == hash);
  sha256_hex = λ s. s;
  random_token = λ n. ok (nth_token n);
  sql_lower = λ s. s;
  to_lower = λ s. s;
}
