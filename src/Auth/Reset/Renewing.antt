-- ===== src/Auth/Reset/Renewing.antt =====
-- ResetPasswordTx of auth/reset.go, and AuthenticateTx of auth/users.go behind it.
use go_bootstrap.Prelude.{
  String, ◌≡◌, ◌↔◌, refl, ap, ◌∙◌, true, [], ◌∷◌, keep, nat_eq, any-keep, keep-map_if,
}
use go_bootstrap.Errors.{ok}
use go_bootstrap.Store.{User, Store, Tables}
use go_bootstrap.Platform.{Platform}
use go_bootstrap.Auth.Users.{same_email, authenticate}
use go_bootstrap.Auth.Users.Signin.{IsQuiet, matching, authenticate_iff}
use go_bootstrap.Prelude.Text.{trim_space}
use go_bootstrap.Auth.Reset.{set_password, retire_tokens, reset_password}
use go_bootstrap.Auth.Reset.Retiring.{after}
use go_bootstrap.Auth.Reset.Succeeding.{reset_row, IsResettable, reset_password-eq}

module _ (p : Platform) (token password email : String) (s : Store) (user : User)
    (hash : String) where
  -- the user's row with the new hash
  abbrev pub new_row : User
  new_row = reset_row user hash s.db_now

  matching-reset_password :
      (h : IsResettable p token password s user hash)
      → matching p email s ≡ user ∷ []
      → keep (same_email p (trim_space email)) (after p h.row.user_id hash s.db_now s.tables).users
        ≡ new_row ∷ []
  unfolding same_email retire_tokens set_password
  matching-reset_password h one =
      keep-map_if (same_email p (trim_space email)) (λ u. nat_eq u.id h.row.user_id)
        (λ u. reset_row u hash s.db_now) user s.tables.users (λ u. refl)
        (any-keep (λ u. nat_eq u.id h.row.user_id) user s.tables.users [] h.found) one

  -- Where no call fails, the token has exactly one live row and its user exactly one row, the
  -- policy accepts the password and the hash is made, a reset succeeds with the user's row and the
  -- new hash in it; and on the tables that it leaves, where the calls of a signin do not fail and
  -- the user was the only one with the email, a signin succeeds with that row exactly for a
  -- password that fits the new hash.
  pub authenticate-reset_password :
      (s' : Store) (entered : String)
      → IsResettable p token password s user hash
      → matching p email s ≡ user ∷ []
      → s'.tables ≡ (reset_password p token password s).1.tables
      → IsQuiet s'
      → ((reset_password p token password s).0 ≡ ok new_row)
        × (((authenticate p email entered s').0 ≡ ok new_row)
            ↔ (p.compare_hash entered hash ≡ ok true))
  authenticate-reset_password s' entered h one left quiet =
      let reset = reset_password-eq p token password s user hash h in
      let found : matching p email s' ≡ new_row ∷ [] =
        ap (λ (t : Tables). keep (same_email p (trim_space email)) t.users)
          (left ∙ ap (λ r. r.1.tables) reset)
        ∙ matching-reset_password h one in
      let (only_if, whenever) = authenticate_iff p email entered s' new_row quiet in
      (ap (λ r. r.0) reset, (λ signed. (only_if signed).1, λ fits. whenever (found, fits)))
