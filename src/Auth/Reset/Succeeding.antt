-- ===== src/Auth/Reset/Succeeding.antt =====
-- ResetPasswordTx of auth/reset.go, call by call, where no call fails.
use go_bootstrap.Prelude.{
  ℕ, suc, ◌+◌, not, ◌&&◌, is_some, String, ◌≡◌, refl, ap, ◌∙◌, none, [], ◌∷◌, arith, keep, nat_eq,
  keep-map_if, length, any-keep,
}
use go_bootstrap.Errors.{ok}
use go_bootstrap.Store.{User, PasswordResetToken, Store, no_fault}
use go_bootstrap.Platform.{Platform}
use go_bootstrap.Db.{update, Command, exec}
use go_bootstrap.Db.Queries.{only, find_exactly_one-eq}
use go_bootstrap.Auth.Users.{hash_password, validate_password, by_id, users_by_id}
use go_bootstrap.Auth.Users.Signin.{called}
use go_bootstrap.Auth.Reset.{
  hash_reset_token, is_live, live_tokens, live_reset_token, set_password, retire_tokens,
  retire_and_read, store_hash, reset_user, consume_token, reset_password,
}
use go_bootstrap.Auth.Reset.Retiring.{after}

-- the user's row with a new hash
abbrev pub reset_row : User → String → ℕ → User
reset_row user hash now = record user { password_hash = hash; updated_at = now }

exec_lem :
    (sql : Command) (s : Store)
    → s.faults s.calls ≡ no_fault
    → exec sql s
      ≡ (ok (sql s.db_now s.tables).0, record (called s) { tables = (sql s.db_now s.tables).1 })
unfolding exec
exec_lem sql s h = rw (exec, h) refl

update-set_password :
    (hash : String) (id : ℕ) (s : Store)
    → s.faults s.calls ≡ no_fault
    → update (set_password hash id) s ≡ (
      ok (length (keep (λ u. nat_eq u.id id) s.tables.users)),
      record (called s) { tables = (set_password hash id s.db_now s.tables).1 },
    )
unfolding update set_password
update-set_password hash id s h = rw (exec_lem (set_password hash id) s h) refl

update-retire_tokens :
    (id : ℕ) (s : Store)
    → s.faults s.calls ≡ no_fault
    → update (retire_tokens id) s ≡ (
      ok (length (keep (λ r. nat_eq r.user_id id && not (is_some r.used_at)) s.tables.tokens)),
      record (called s) { tables = (retire_tokens id s.db_now s.tables).1 },
    )
unfolding update retire_tokens
update-retire_tokens id s h = rw (exec_lem (retire_tokens id) s h) refl

module _ (p : Platform) where
  hash_password-eq :
      (password : String) (s : Store) (hash : String)
      → s.faults s.calls ≡ no_fault
      → p.create_hash s.draws password ≡ ok hash
      → hash_password p password s ≡ (ok hash, record (called s) { draws = suc s.draws })
  unfolding hash_password
  hash_password-eq password s hash h k = ground arith

  by_id-eq :
      (id : ℕ) (s : Store) (user : User)
      → s.faults s.calls ≡ no_fault
      → keep (λ u. nat_eq u.id id) s.tables.users ≡ user ∷ []
      → by_id p id s ≡ (ok user, called s)
  unfolding by_id users_by_id only
  by_id-eq id s user h k =
      find_exactly_one-eq p (users_by_id id) s (keep (λ u. nat_eq u.id id) s.tables.users) none
        s.tables h refl
      ∙ rw k refl

  live_reset_token-eq :
      (token : String) (s : Store) (row : PasswordResetToken)
      → s.faults s.calls ≡ no_fault
      → keep (is_live (hash_reset_token p token) s.db_now) s.tables.tokens ≡ row ∷ []
      → live_reset_token p token s ≡ (ok row, called s)
  unfolding live_reset_token live_tokens only
  live_reset_token-eq token s row h k =
      let digest = hash_reset_token p token in
      rw
        (
          find_exactly_one-eq p (live_tokens digest) s
              (keep (is_live digest s.db_now) s.tables.tokens) none s.tables h refl,
          k,
        )
        refl

  retire_and_read-eq :
      (id : ℕ) (s : Store) (user : User)
      → ((n : ℕ) → s.faults n ≡ no_fault)
      → keep (λ u. nat_eq u.id id) s.tables.users ≡ user ∷ []
      → retire_and_read p id s
        ≡ (ok user, record (called (called s)) { tables = (retire_tokens id s.db_now s.tables).1 })
  unfolding retire_and_read retire_tokens
  retire_and_read-eq id s user quiet h =
      let s' = record (called s) { tables = (retire_tokens id s.db_now s.tables).1 } in
      rw (update-retire_tokens id s (quiet s.calls), by_id-eq id s' user (quiet s'.calls) h) refl

  store_hash-eq :
      (id : ℕ) (hash : String) (s : Store) (user : User)
      → ((n : ℕ) → s.faults n ≡ no_fault)
      → keep (λ u. nat_eq u.id id) s.tables.users ≡ user ∷ []
      → store_hash p id hash s ≡ (
        ok (reset_row user hash s.db_now),
        record (called (called (called s))) { tables = after p id hash s.db_now s.tables },
      )
  unfolding store_hash set_password retire_tokens
  store_hash-eq id hash s user quiet h =
      let s' = record (called s) { tables = (set_password hash id s.db_now s.tables).1 } in
      rw
        (
          update-set_password hash id s (quiet s.calls),
          retire_and_read-eq id s' (reset_row user hash s.db_now) quiet (
              keep-map_if (λ u. nat_eq u.id id) (λ u. nat_eq u.id id)
                (λ u. reset_row u hash s.db_now) user s.tables.users (λ u. refl)
                (any-keep (λ u. nat_eq u.id id) user s.tables.users [] h) h),
        )
        refl

  -- A store in which no call fails, a token with one live row, whose user has one row, and a
  -- password that the policy accepts and that is hashed.
  pub record IsResettable (token password : String) (s : Store) (user : User) (hash : String)
      : Type 0 where
    pub quiet : (n : ℕ) → s.faults n ≡ no_fault
    pub accepted : validate_password password ≡ none
    pub row : PasswordResetToken
    pub live : keep (is_live (hash_reset_token p token) s.db_now) s.tables.tokens ≡ row ∷ []
    pub found : keep (λ u. nat_eq u.id row.user_id) s.tables.users ≡ user ∷ []
    pub made : p.create_hash s.draws password ≡ ok hash

  consume_token-eq :
      (token password : String) (s : Store) (user : User) (hash : String)
      → (h : IsResettable token password s user hash)
      → consume_token p token password s ≡ (
        ok (reset_row user hash s.db_now),
        record s {
          tables = after p h.row.user_id hash s.db_now s.tables;
          calls = s.calls + 5;
          draws = suc s.draws;
        },
      )
  unfolding consume_token reset_user
  consume_token-eq token password s user hash h =
      let s' = record (called (called s)) { draws = suc s.draws } in
      rw
        (
          live_reset_token-eq token s h.row (h.quiet s.calls) h.live,
          hash_password-eq password (called s) hash (h.quiet (suc s.calls)) h.made,
          store_hash-eq h.row.user_id hash s' user h.quiet h.found,
        )
        (ap
          (λ n. (
            ok (reset_row user hash s.db_now),
            record s {
              tables = after p h.row.user_id hash s.db_now s.tables;
              calls = n;
              draws = suc s.draws;
            },
          ))
          (omega arith))

  -- Where no call fails, the token has exactly one live row and its user exactly one row, the
  -- policy accepts the password and the hash is made, a reset succeeds in five calls and one draw:
  -- it returns the user with the new hash, and the tables have that hash in the user's row and no
  -- open token of the user.
  pub reset_password-eq :
      (token password : String) (s : Store) (user : User) (hash : String)
      → (h : IsResettable token password s user hash)
      → reset_password p token password s ≡ (
        ok (reset_row user hash s.db_now),
        record s {
          tables = after p h.row.user_id hash s.db_now s.tables;
          calls = s.calls + 5;
          draws = suc s.draws;
        },
      )
  unfolding reset_password
  reset_password-eq token password s user hash h =
      rw (h.accepted, reset_password) (consume_token-eq token password s user hash h)
