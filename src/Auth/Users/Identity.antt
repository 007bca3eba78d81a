-- ===== src/Auth/Users/Identity.antt =====
-- Who the users are: nothing that a request calls in package auth, jobs or throttle changes it.
use go_bootstrap.Prelude.{ℕ, String, ◌≡◌, refl, ap, List, map, arith, ◌∙◌}
use go_bootstrap.Prelude.Text.{trim_space}
use go_bootstrap.Errors.{wrap, is, not_found, map_err, Result, ok, err}
use go_bootstrap.Exec.Keeping.{Keeps, continue-Shows, if-Shows}
use go_bootstrap.Store.{User, Tables, Store}
use go_bootstrap.Platform.{Platform}
use go_bootstrap.Db.Keeping.{in_store, find_exactly_one-Keeps}
use go_bootstrap.Auth.Users.{
  users_by_email, users_by_id, by_email, by_id, hash_password, compare_password, dummy_hash,
  check_found, authenticate,
}
use go_bootstrap.Auth.Users.Accounts.{tables-hash_password}

-- What makes a user who they are, beside the password: what signs in by which email, and may do what.
pub record Account : Type 0 where
  pub id : ℕ
  pub email : String
  pub name : String
  pub roles : List String
  pub created_at : ℕ

abbrev pub account : User → Account
account u = record {
  id = u.id;
  email = u.email;
  name = u.name;
  roles = u.roles;
  created_at = u.created_at;
}

abbrev pub accounts : List User → List Account
accounts users = map account users

-- the tables as a view of the users shows them
abbrev pub seen : {V : Type 0} → (List User → V) → Tables → V
seen show t = show t.users

module _ {V : Type 0} (show : List User → V) (p : Platform) where
  pub by_email-Keeps : (email : String) → Keeps (in_store (seen show)) (by_email p email)
  unfolding by_email users_by_email
  by_email-Keeps email =
      find_exactly_one-Keeps (seen show) p (users_by_email p (trim_space email)) (λ now t. refl)

  pub by_id-Keeps : (id : ℕ) → Keeps (in_store (seen show)) (by_id p id)
  unfolding by_id users_by_id
  by_id-Keeps id = find_exactly_one-Keeps (seen show) p (users_by_id id) (λ now t. refl)

  tables-compare_password :
      (password hash : String) (s : Store)
      → (compare_password p password hash s).1.tables ≡ s.tables
  unfolding compare_password
  tables-compare_password password hash s = ground arith

  check_found-Keeps :
      (password : String) (found : Result User)
      → Keeps (in_store (seen show)) (check_found p password found)
  unfolding check_found
  check_found-Keeps password (err e) s =
      if-Shows (in_store (seen show)) (is e not_found) _ _ s
        (ap (seen show) (tables-compare_password password (dummy_hash p) s)) refl
  check_found-Keeps password (ok user) s =
      continue-Shows (in_store (seen show))
        (map_err (wrap "comparing password hash")
          (compare_password p password user.password_hash s).0)
        _ _ (ap (seen show) (tables-compare_password password user.password_hash s))
        (λ matches s. if-Shows (in_store (seen show)) matches _ _ s refl refl)

  pub authenticate-Keeps :
      (email password : String) → Keeps (in_store (seen show)) (authenticate p email password)
  unfolding authenticate
  authenticate-Keeps email password s =
      check_found-Keeps password (by_email p email s).0 _ ∙ by_email-Keeps email s

  pub hash_password-Keeps :
      (password : String) → Keeps (in_store (seen show)) (hash_password p password)
  hash_password-Keeps password s = ap (seen show) (tables-hash_password p password s)
