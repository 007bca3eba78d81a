-- ===== src/Auth/Reset.antt =====
-- auth/reset.go, with the row map of auth/password_reset_tokens.gen.go.
pub mod Retiring
pub mod Succeeding
pub mod Renewing
pub mod SingleUse
pub mod Issuing
pub mod Keeping
use go_bootstrap.Prelude.{
  ℕ, suc, ◌+◌, String, Bool, true, false, not, ◌&&◌, Option, none, some, List, [], ◌∷◌, ◌++◌, ◌==◌,
  if◌then◌else◌, ltb, keep, any, nat_eq, is_some, length, map_if,
}
use go_bootstrap.Errors.{
  pg_error, Error, is, sentinel, not_found, reset_token_invalid, Result, ok, err,
}
use go_bootstrap.Exec.{Exec, pure, fail, lift, wrapping, attempt, ◌>>=◌, ◌>>◌}
use go_bootstrap.Store.{User, PasswordResetToken, Tables, Store, Statement}
use go_bootstrap.Platform.{Platform}
use go_bootstrap.Db.{find_exactly_one, insert, update, Command, update_rows}
use go_bootstrap.Db.RowMap.{Value, null, text, num, RowMap, lookup, filter_unset}
use go_bootstrap.Auth.Users.{by_email, by_id, hash_password, validate_password, text_or, num_or}

-- An hour, in microseconds.
abbrev pub reset_token_ttl : ℕ
reset_token_ttl = 3600000000

unfoldable pub hash_reset_token : Platform → String → String
hash_reset_token p token = p.sha256_hex token

abbrev time_or_null : Option ℕ → Value
time_or_null none = null
time_or_null (some t) = num t

-- The receiver's ID is the primary key, which the map omits.
unfoldable pub to_row_map : PasswordResetToken → RowMap
to_row_map token =
    filter_unset
      (("user_id", num token.user_id)
        ∷ ("token_hash", text token.token_hash)
        ∷ ("expires_at", num token.expires_at)
        ∷ ("used_at", time_or_null token.used_at)
        ∷ ("created_at", num token.created_at)
        ∷ [])
      ("created_at" ∷ [])

abbrev time_of : Option Value → Option ℕ
time_of (some (num t)) = some t
time_of other = none

new_token : RowMap → ℕ → Tables → PasswordResetToken
new_token rm now t = record {
  id = t.next_token_id;
  user_id = num_or 0 (lookup "user_id" rm);
  token_hash = text_or "" (lookup "token_hash" rm);
  expires_at = num_or 0 (lookup "expires_at" rm);
  used_at = time_of (lookup "used_at" rm);
  created_at = num_or now (lookup "created_at" rm);
}

-- INSERT INTO password_reset_tokens … RETURNING …, under the unique index on token_hash and the
-- foreign key to users.
add_token : PasswordResetToken → Statement PasswordResetToken
add_token token now t =
    let t' : Tables = record t { next_token_id = suc t.next_token_id } in
    if any (λ r. r.token_hash == token.token_hash) t.tokens
    then (
      record {
        items = [];
        broken = some (sentinel (pg_error "23505" "password_reset_tokens_token_hash_unique"));
      },
      t',
    )
    else if any (λ u. nat_eq u.id token.user_id) t.users
    then (
      record { items = token ∷ []; broken = none },
      record t' { tokens = t.tokens ++ token ∷ [] },
    )
    else (
      record {
        items = [];
        broken = some (sentinel (pg_error "23503" "password_reset_tokens_user_id_fkey"));
      },
      t',
    )

unfoldable pub insert_token : RowMap → Statement PasswordResetToken
unfolding new_token add_token
insert_token rm now t = add_token (new_token rm now t) now t

-- rand.Read and the encoding of what it gives
draw_token : Platform → Exec Store String
draw_token p s = (p.random_token s.draws, record s { draws = suc s.draws })

-- time.Now()
abbrev pub app_time : Exec Store ℕ
app_time s = (ok s.app_now, s)

abbrev pub token_of : Platform → User → String → ℕ → PasswordResetToken
token_of p user token now = record {
  id = 0;
  user_id = user.id;
  token_hash = hash_reset_token p token;
  expires_at = now + reset_token_ttl;
  used_at = none;
  created_at = 0;
}

unfoldable pub create_password_reset : Platform → String → Exec Store (String × User)
unfolding draw_token
create_password_reset p email = do
  user ← by_email p email
  token ← wrapping "generating reset token" (draw_token p)
  now ← app_time
  wrapping "inserting reset token"
      (insert p (insert_token (to_row_map (token_of p user token now))))
  pure (token, user)

-- WHERE token_hash = $1 AND used_at IS NULL AND expires_at > now()
unfoldable pub is_live : String → ℕ → PasswordResetToken → Bool
is_live hash now r = r.token_hash == hash && not (is_some r.used_at) && ltb now r.expires_at

unfoldable pub live_tokens : String → Statement PasswordResetToken
live_tokens hash now t = (record { items = keep (is_live hash now) t.tokens; broken = none }, t)

live_or_invalid : Result PasswordResetToken → Result PasswordResetToken
live_or_invalid (ok row) = ok row
live_or_invalid (err e) = if is e not_found then err (sentinel reset_token_invalid) else err e

unfoldable pub live_reset_token : Platform → String → Exec Store PasswordResetToken
unfolding live_or_invalid
live_reset_token p token = do
  found ← attempt (find_exactly_one p (live_tokens (hash_reset_token p token)))
  lift (live_or_invalid found)

unfoldable pub check_reset_token : Platform → String → Exec Store (Unit {0})
check_reset_token p token = do live_reset_token p token; pure tt

-- UPDATE users SET password_hash = ?, updated_at = now() WHERE id = ?
unfoldable pub set_password : String → ℕ → Command
set_password hash id now t =
    let chosen = λ (u : User). nat_eq u.id id in
    (
      record { verb = update_rows; rows_affected = length (keep chosen t.users) },
      record t {
        users = map_if chosen (λ u. record u { password_hash = hash; updated_at = now }) t.users;
      },
    )

-- UPDATE password_reset_tokens SET used_at = now() WHERE user_id = ? AND used_at IS NULL
unfoldable pub retire_tokens : ℕ → Command
retire_tokens id now t =
    let chosen = λ (r : PasswordResetToken). nat_eq r.user_id id && not (is_some r.used_at) in
    (
      record { verb = update_rows; rows_affected = length (keep chosen t.tokens) },
      record t { tokens = map_if chosen (λ r. record r { used_at = some now }) t.tokens },
    )

-- The parts of ResetPasswordTx, from the last.
retire_and_read : Platform → ℕ → Exec Store User
retire_and_read p id = do wrapping "retiring reset tokens" (update (retire_tokens id)); by_id p id

store_hash : Platform → ℕ → String → Exec Store User
store_hash p id hash = do
  wrapping "updating password" (update (set_password hash id))
  retire_and_read p id

reset_user : Platform → String → PasswordResetToken → Exec Store User
reset_user p password row = do
  hash ← wrapping "hashing password" (hash_password p password)
  store_hash p row.user_id hash

consume_token : Platform → String → String → Exec Store User
unfolding retire_and_read store_hash reset_user
consume_token p token password = do row ← live_reset_token p token; reset_user p password row

unfoldable pub reset_password : Platform → String → String → Exec Store User
unfolding consume_token
reset_password p token password = elim (validate_password password) [
  | some e ↦ fail e
  | none ↦ consume_token p token password
]
