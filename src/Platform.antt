-- ===== src/Platform.antt =====
-- The third-party code that the modelled packages call, as parameters with the behaviour that its
-- documentation states: pgx's row collection, argon2id, sha256 and the random source, and the case
-- folding of Postgres and Go.
pub mod Demo
use go_bootstrap.Prelude.{ℕ, String, Bool, ◌≡◌, none, some, List, [], ◌∷◌}
use go_bootstrap.Errors.{Error, sentinel, no_rows, pgx_too_many_rows, Result, ok, err}
use go_bootstrap.Store.{Rows}

pub record Platform : Type 1 where
  -- pgx.CollectRows, pgx.CollectOneRow, pgx.CollectExactlyOneRow with RowToStructByName
  pub collect_rows : (A : Type 0) → Rows A → Result (List A)
  pub collect_one_row : (A : Type 0) → Rows A → Result A
  pub collect_exactly_one_row : (A : Type 0) → Rows A → Result A
  pub collect_rows_ok :
      (A : Type 0) (xs : List A) → collect_rows A (record { items = xs; broken = none }) ≡ ok xs
  pub collect_rows_broken :
      (A : Type 0) (xs : List A) (e : Error)
      → collect_rows A (record { items = xs; broken = some e }) ≡ err e
  pub one_row_nil :
      (A : Type 0)
      → collect_one_row A (record { items = []; broken = none }) ≡ err (sentinel no_rows)
  pub one_row_cons :
      (A : Type 0) (x : A) (xs : List A)
      → collect_one_row A (record { items = x ∷ xs; broken = none }) ≡ ok x
  pub one_row_broken :
      (A : Type 0) (xs : List A) (e : Error)
      → collect_one_row A (record { items = xs; broken = some e }) ≡ err e
  pub exactly_one_nil :
      (A : Type 0)
      → collect_exactly_one_row A (record { items = []; broken = none }) ≡ err (sentinel no_rows)
  pub exactly_one_single :
      (A : Type 0) (x : A)
      → collect_exactly_one_row A (record { items = x ∷ []; broken = none }) ≡ ok x
  pub exactly_one_many :
      (A : Type 0) (x y : A) (xs : List A)
      → collect_exactly_one_row A (record { items = x ∷ y ∷ xs; broken = none })
        ≡ err (sentinel pgx_too_many_rows)
  pub exactly_one_broken :
      (A : Type 0) (xs : List A) (e : Error)
      → collect_exactly_one_row A (record { items = xs; broken = some e }) ≡ err e
  -- argon2id.CreateHash with the n-th salt, and argon2id.ComparePasswordAndHash
  pub create_hash : ℕ → String → Result String
  pub compare_hash : String → String → Result Bool
  -- the hex digest of sha256.Sum256
  pub sha256_hex : String → String
  -- the n-th read of 32 bytes from crypto/rand, in base64.RawURLEncoding
  pub random_token : ℕ → Result String
  -- lower() of Postgres, strings.ToLower
  pub sql_lower : String → String
  pub to_lower : String → String
