-- ===== src/Auth/Reset/Keeping.antt =====
-- Consuming a token changes passwords and tokens, and not who the users are.
use go_bootstrap.Prelude.{
  ℕ, String, ◌≡◌, refl, ap, Bool, List, [], ◌∷◌, map, map_if, nat_eq, Bool-cases, Option-cases, inl,
  inr,
}
use go_bootstrap.Errors.{wrap, map_err}
use go_bootstrap.Exec.Keeping.{Keeps, continue-Shows}
use go_bootstrap.Store.{User, Tables, PasswordResetToken}
use go_bootstrap.Platform.{Platform}
use go_bootstrap.Db.{update}
use go_bootstrap.Db.Keeping.{in_store, find_exactly_one-Keeps, update-Keeps}
use go_bootstrap.Auth.Users.{hash_password, validate_password}
use go_bootstrap.Auth.Users.Identity.{account, accounts, seen, by_id-Keeps, hash_password-Keeps}
use go_bootstrap.Auth.Reset.{
  hash_reset_token, live_tokens, live_reset_token, check_reset_token, set_password, retire_tokens,
  retire_and_read, store_hash, reset_user, consume_token, reset_password,
}

-- A password is no part of the account.
map-set_password :
    (chosen : User → Bool) (hash : String) (now : ℕ) (us : List User)
    → map account (map_if chosen (λ u. record u { password_hash = hash; updated_at = now }) us)
      ≡ map account us
map-set_password chosen hash now [] = refl
map-set_password chosen hash now (u ∷ us) = elim (Bool-cases (chosen u)) [
  | inl changed ↦ rw changed (ap (◌∷◌ (account u)) (map-set_password chosen hash now us))
  | inr kept ↦ rw kept (ap (◌∷◌ (account u)) (map-set_password chosen hash now us))
]

-- a view of the users that an update of a password does not change
abbrev pub IsSteady : {V : Type 0} → (List User → V) → Type 0
IsSteady show =
    (hash : String) (id now : ℕ) (t : Tables)
    → show (set_password hash id now t).1.users ≡ show t.users

-- The accounts are such a view.
pub accounts-IsSteady : IsSteady accounts
unfolding set_password
accounts-IsSteady hash id now t = map-set_password (λ u. nat_eq u.id id) hash now t.users

module _ {V : Type 0} (show : List User → V) (p : Platform) where
  live_reset_token-Keeps :
      (token : String) → Keeps (in_store (seen show)) (live_reset_token p token)
  unfolding live_reset_token live_tokens
  live_reset_token-Keeps token =
      find_exactly_one-Keeps (seen show) p (live_tokens (hash_reset_token p token)) (λ now t. refl)

  pub check_reset_token-Keeps :
      (token : String) → Keeps (in_store (seen show)) (check_reset_token p token)
  unfolding check_reset_token
  check_reset_token-Keeps token s =
      continue-Shows (in_store (seen show)) (live_reset_token p token s).0 _ _
        (live_reset_token-Keeps token s) (λ row s. refl)

  retire_and_read-Keeps : (id : ℕ) → Keeps (in_store (seen show)) (retire_and_read p id)
  unfolding retire_and_read retire_tokens
  retire_and_read-Keeps id s =
      continue-Shows (in_store (seen show))
        (map_err (wrap "retiring reset tokens") (update (retire_tokens id) s).0) _ _
        (update-Keeps (seen show) (retire_tokens id) (λ now t. refl) s) (λ n. by_id-Keeps show p id)

  module _ (steady : IsSteady show) where
    store_hash-Keeps :
        (id : ℕ) (hash : String) → Keeps (in_store (seen show)) (store_hash p id hash)
    unfolding store_hash
    store_hash-Keeps id hash s =
        continue-Shows (in_store (seen show))
          (map_err (wrap "updating password") (update (set_password hash id) s).0) _ _
          (update-Keeps (seen show) (set_password hash id) (steady hash id) s)
          (λ n. retire_and_read-Keeps id)

    reset_user-Keeps :
        (password : String) (row : PasswordResetToken)
        → Keeps (in_store (seen show)) (reset_user p password row)
    unfolding reset_user
    reset_user-Keeps password row s =
        continue-Shows (in_store (seen show))
          (map_err (wrap "hashing password") (hash_password p password s).0) _ _
          (hash_password-Keeps show p password s) (λ hash. store_hash-Keeps row.user_id hash)

    consume_token-Keeps :
        (token password : String) → Keeps (in_store (seen show)) (consume_token p token password)
    unfolding consume_token
    consume_token-Keeps token password s =
        continue-Shows (in_store (seen show)) (live_reset_token p token s).0 _ _
          (live_reset_token-Keeps token s) (reset_user-Keeps password)

    pub reset_password-Keeps :
        (token password : String) → Keeps (in_store (seen show)) (reset_password p token password)
    unfolding reset_password
    reset_password-Keeps token password s = elim (Option-cases (validate_password password)) [
      | inl fits ↦ rw (reset_password, fits) (consume_token-Keeps token password s)
      | inr (e, refused) ↦ rw (reset_password, refused) refl
    ]
