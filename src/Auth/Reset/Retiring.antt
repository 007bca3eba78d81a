-- ===== src/Auth/Reset/Retiring.antt =====
-- What a password reset that succeeds has done, and that it retires the user's tokens.
use go_bootstrap.Prelude.{
  ℕ, suc, String, not, ◌&&◌, some, is_some, map_if, ◌≡◌, refl, ap, sym, ◌∙◌, none, [], ◌∷◌, arith,
  keep, nat_eq, Option-cases, inl, inr,
}
use go_bootstrap.Errors.{wrap, Result, ok, err, map_err}
use go_bootstrap.Exec.{continue-eq-ok, map_err-eq-ok}
use go_bootstrap.Store.{User, PasswordResetToken, Store, Tables}
use go_bootstrap.Platform.{Platform}
use go_bootstrap.Db.{update}
use go_bootstrap.Db.Queries.{find_exactly_one-eq-ok, find_exactly_one-selects, update-eq-ok}
use go_bootstrap.Auth.Users.{hash_password, validate_password, by_id, users_by_id}
use go_bootstrap.Auth.Reset.{
  hash_reset_token, is_live, live_tokens, live_or_invalid, live_reset_token, set_password,
  retire_tokens, retire_and_read, store_hash, reset_user, consume_token, reset_password,
}

module _ (p : Platform) where
  live_or_invalid-ok :
      (r : Result PasswordResetToken) (row : PasswordResetToken)
      → live_or_invalid r ≡ ok row
      → r ≡ ok row
  unfolding live_or_invalid
  live_or_invalid-ok (ok r) row h = h
  live_or_invalid-ok (err e) row h = ground arith

  live_reset_token-ok :
      (token : String) (s : Store) (row : PasswordResetToken)
      → (live_reset_token p token s).0 ≡ ok row
      → keep (is_live (hash_reset_token p token) s.db_now) s.tables.tokens ≡ row ∷ []
  unfolding live_reset_token live_tokens
  live_reset_token-ok token s row h =
      find_exactly_one-eq-ok p (live_tokens (hash_reset_token p token)) s row
        (live_or_invalid-ok _ row h)

  live_reset_token-selects :
      (token : String) (s : Store)
      → (live_reset_token p token s).1 ≡ record s { calls = suc s.calls }
  unfolding live_reset_token live_tokens
  live_reset_token-selects token s =
      find_exactly_one-selects p (live_tokens (hash_reset_token p token)) s refl

  hash_password-ok :
      (password : String) (s : Store) (hash : String)
      → (hash_password p password s).0 ≡ ok hash
      → (p.create_hash s.draws password ≡ ok hash)
        × ((hash_password p password s).1 ≡ record s { calls = suc s.calls; draws = suc s.draws })
  unfolding hash_password
  hash_password-ok password s hash h = ground arith

  -- the tables behind a reset of a user's password: the user's row has the hash, the user's open tokens
  -- are marked as used, and every other row and table is as it was
  abbrev pub after : ℕ → String → ℕ → Tables → Tables
  after id hash now t = record t {
    users =
        map_if (λ u. nat_eq u.id id) (λ u. record u { password_hash = hash; updated_at = now })
          t.users;
    tokens =
        map_if (λ r. nat_eq r.user_id id && not (is_some r.used_at))
          (λ r. record r { used_at = some now }) t.tokens;
  }

  -- A reset that succeeded: the token's row was live and the only one, the hash was made of the new
  -- password, in the user's row stand the hash and the time, the user's open tokens are marked as used,
  -- no other row and no other column has changed, and the user that is returned is the changed row.
  pub record IsReset (token password : String) (s : Store) (user : User) (s' : Store) : Type 0 where
    pub row : PasswordResetToken
    pub hash : String
    pub live : keep (is_live (hash_reset_token p token) s.db_now) s.tables.tokens ≡ row ∷ []
    pub made : p.create_hash s.draws password ≡ ok hash
    pub users :
        s'.tables.users
        ≡ map_if
            (λ u. nat_eq u.id row.user_id)
            (λ u. record u { password_hash = hash; updated_at = s.db_now })
            s.tables.users
    pub tokens :
        s'.tables.tokens
        ≡ map_if
            (λ r. nat_eq r.user_id row.user_id && not (is_some r.used_at))
            (λ r. record r { used_at = some s.db_now })
            s.tables.tokens
    pub rest : s'.tables ≡ record s.tables { users = s'.tables.users; tokens = s'.tables.tokens }
    pub returned : keep (λ u. nat_eq u.id row.user_id) s'.tables.users ≡ user ∷ []

  by_id-ok :
      (id : ℕ) (s : Store) (user : User)
      → (by_id p id s).0 ≡ ok user
      → (keep (λ u. nat_eq u.id id) s.tables.users ≡ user ∷ [])
        × ((by_id p id s).1.tables ≡ s.tables)
  unfolding by_id users_by_id
  by_id-ok id s user h = (
    find_exactly_one-eq-ok p (users_by_id id) s user h,
    ap (λ s'. s'.tables) (find_exactly_one-selects p (users_by_id id) s refl),
  )

  retire_and_read-ok :
      (id : ℕ) (s : Store) (user : User)
      → (retire_and_read p id s).0 ≡ ok user
      → ((retire_and_read p id s).1.tables ≡ (retire_tokens id s.db_now s.tables).1)
        × (keep (λ u. nat_eq u.id id) (retire_and_read p id s).1.tables.users ≡ user ∷ [])
  unfolding retire_and_read
  retire_and_read-ok id s user h =
      let (n, done, h', e) =
        continue-eq-ok (map_err (wrap "retiring reset tokens") (update (retire_tokens id) s).0)
          (λ _. by_id p id) (update (retire_tokens id) s).1 h in
      let stored = update-eq-ok (retire_tokens id) s n (map_err-eq-ok _ _ done) in
      let (only_one, same) = by_id-ok id (update (retire_tokens id) s).1 user h' in
      rw e (same ∙ ap (λ t. t.tables) stored, rw same only_one)

  store_hash-ok :
      (id : ℕ) (hash : String) (s : Store) (user : User)
      → (store_hash p id hash s).0 ≡ ok user
      → ((store_hash p id hash s).1.tables ≡ after id hash s.db_now s.tables)
        × (keep (λ u. nat_eq u.id id) (store_hash p id hash s).1.tables.users ≡ user ∷ [])
  unfolding store_hash set_password retire_tokens
  store_hash-ok id hash s user h =
      let (n, done, h', e) =
        continue-eq-ok (map_err (wrap "updating password") (update (set_password hash id) s).0)
          (λ _. retire_and_read p id) (update (set_password hash id) s).1 h in
      let stored = update-eq-ok (set_password hash id) s n (map_err-eq-ok _ _ done) in
      let (tables, read) = retire_and_read-ok id (update (set_password hash id) s).1 user h' in
      rw e (tables ∙ ap (λ t. (retire_tokens id t.db_now t.tables).1) stored, read)

  reset_user-ok :
      (password : String) (row : PasswordResetToken) (s : Store) (user : User)
      → (reset_user p password row s).0 ≡ ok user
      → (hash : String) × (p.create_hash s.draws password ≡ ok hash)
        × ((reset_user p password row s).1.tables ≡ after row.user_id hash s.db_now s.tables)
        × (keep (λ u. nat_eq u.id row.user_id) (reset_user p password row s).1.tables.users
            ≡ user ∷ [])
  unfolding reset_user
  reset_user-ok password row s user h =
      let (hash, made, h', e) =
        continue-eq-ok (map_err (wrap "hashing password") (hash_password p password s).0)
          (store_hash p row.user_id) (hash_password p password s).1 h in
      let (drawn, stored) = hash_password-ok password s hash (map_err-eq-ok _ _ made) in
      let (tables, read) = store_hash-ok row.user_id hash (hash_password p password s).1 user h' in
      (
        hash,
        drawn,
        rw e (tables ∙ ap (λ t. after row.user_id hash t.db_now t.tables) stored),
        rw e read,
      )

  consume_token-IsReset :
      (token password : String) (s : Store) (user : User)
      → (consume_token p token password s).0 ≡ ok user
      → IsReset token password s user (consume_token p token password s).1
  unfolding consume_token
  consume_token-IsReset token password s user h =
      let (row, found, h', e) =
        continue-eq-ok (live_reset_token p token s).0 (reset_user p password)
          (live_reset_token p token s).1 h in
      let same = live_reset_token-selects token s in
      let (hash, drawn, tables, read) =
        reset_user-ok password row (live_reset_token p token s).1 user h' in
      let changed : (consume_token p token password s).1.tables
          ≡ after row.user_id hash s.db_now s.tables =
        rw e (tables ∙ ap (λ t. after row.user_id hash t.db_now t.tables) same) in
      record {
        row = row;
        hash = hash;
        live = live_reset_token-ok token s row found;
        made = ap (λ t. p.create_hash t.draws password) (sym same) ∙ drawn;
        users = ap (λ (t : Tables). t.users) changed;
        tokens = ap (λ (t : Tables). t.tokens) changed;
        rest = rw changed refl;
        returned = rw e read;
      }

  -- A reset that succeeds, whatever else fails, had a password that the policy accepts and a token with
  -- exactly one live row; it has written the hash of that password to the row of the token's user and
  -- marked the user's open tokens as used, at the time of the database, has changed no other row, column
  -- or table, and returns the user's row as it stands now.
  pub reset_password-IsReset :
      (token password : String) (s : Store) (user : User)
      → (reset_password p token password s).0 ≡ ok user
      → (validate_password password ≡ none)
        × IsReset token password s user (reset_password p token password s).1
  unfolding reset_password
  reset_password-IsReset token password s user h =
      elim (Option-cases (validate_password password)) [
        | inl fine ↦ (
          fine,
          rw (fine, reset_password)
              (consume_token-IsReset token password s user (rw (fine, reset_password) at h)),
        )
        | inr (e, refused) ↦ cc (rw (refused, reset_password) at h)
      ]
