-- ===== src/Auth/Users.antt =====
-- auth/users.go, with the row map of auth/users.gen.go.
pub mod Slots
pub mod Factory
pub mod Policy
pub mod Signin
pub mod Accounts
pub mod Creation
pub mod Identity
use Prim.Native.String.{count, len}
use go_bootstrap.Prelude.{
  ℕ, suc, pred, String, ◌≡◌, Bool, true, false, ◌&&◌, Option, none, some, List, [], ◌∷◌, ◌++◌, ◌==◌,
  if◌then◌else◌, ltb, keep, any, nat_eq,
}
use go_bootstrap.Prelude.Text.{is_empty, trim_space, cut}
use go_bootstrap.Errors.{
  Cause, pg_error, Error, cause, is, wrap, detailed, sentinel, not_found, email_required,
  password_required, password_too_short, password_too_long, invalid_credentials, email_taken,
  Result, ok, err,
}
use go_bootstrap.Exec.{Exec, pure, fail, lift, wrapping, attempt, ◌>>=◌, ◌>>◌}
use go_bootstrap.Store.{User, Tables, Store, Statement}
use go_bootstrap.Platform.{Platform}
use go_bootstrap.Db.{find_exactly_one, insert}
use go_bootstrap.Db.RowMap.{Value, text, num, texts, RowMap, lookup, filter_unset}

-- The wait for a hash slot, which ends with an error if the context gives up first.
unfoldable pub acquire_slot : Exec Store (Unit {0})
acquire_slot s = elim (s.faults s.calls).at_call [
  | none ↦ (ok tt, record s { calls = suc s.calls; slots = suc s.slots })
  | some e ↦ (err e, record s { calls = suc s.calls })
]

-- defer func() { <-hashSlots }()
abbrev pub then_release : {A : Type 0} → Exec Store A → Exec Store A
then_release m s = ((m s).0, record (m s).1 { slots = pred (m s).1.slots })

-- The calls of argon2id: a hash draws a salt, and a compare is work that an attacker can time.
draw_hash : Platform → String → Exec Store String
draw_hash p password s = (p.create_hash s.draws password, record s { draws = suc s.draws })

count_compare : Platform → String → String → Exec Store Bool
count_compare p password hash s =
    (p.compare_hash password hash, record s { compares = suc s.compares })

unfoldable pub hash_password : Platform → String → Exec Store String
unfolding acquire_slot draw_hash
hash_password p password = do
  wrapping "waiting for a hash slot" acquire_slot
  then_release (wrapping "argon2id hash" (draw_hash p password))

unfoldable pub compare_password : Platform → String → String → Exec Store Bool
unfolding acquire_slot count_compare
compare_password p password hash = do
  wrapping "waiting for a hash slot" acquire_slot
  then_release (wrapping "argon2id compare" (count_compare p password hash))

-- The process panics at its start if the hash cannot be made, so the last case is never reached.
unfoldable pub dummy_hash : Platform → String
dummy_hash p = elim (p.create_hash 0 "decoy-for-timing-uniformity") [ ok hash ↦ hash | err e ↦ "" ]

abbrev pub password_min_length : ℕ
password_min_length = 8

abbrev pub password_max_bytes : ℕ
password_max_bytes = 512

abbrev pub email_unique_index : String
email_unique_index = "users_email_lower_unique"

-- slices.Contains(user.Roles, role)
unfoldable pub has_role : User → String → Bool
has_role user role = any (λ r. r == role) user.roles

unfoldable pub password_epoch : Platform → User → String
password_epoch p user = p.sha256_hex user.password_hash

-- The length in runes is `count`, the length in bytes `len`.
unfoldable pub validate_password : String → Option Error
validate_password password =
    if is_empty password
    then some (sentinel password_required)
    else if ltb (count password) password_min_length
    then some (sentinel password_too_short)
    else if ltb password_max_bytes (len password)
    then some (sentinel password_too_long)
    else none

abbrev is_email_conflict : Cause → Bool
is_email_conflict (pg_error code constraint) = code == "23505" && constraint == email_unique_index
is_email_conflict other = false

unfoldable pub is_email_unique_violation : Error → Bool
is_email_unique_violation e = is_email_conflict (cause e)

-- The receiver's ID is the primary key, which the map omits.
unfoldable pub to_row_map : User → RowMap
to_row_map user =
    filter_unset
      (("email", text user.email)
        ∷ ("password_hash", text user.password_hash)
        ∷ ("name", text user.name)
        ∷ ("roles", texts user.roles)
        ∷ ("created_at", num user.created_at)
        ∷ ("updated_at", num user.updated_at)
        ∷ [])
      ("name" ∷ "roles" ∷ "created_at" ∷ "updated_at" ∷ [])

-- The value of a column in an INSERT, or the column's default in migrations/001_create_users.sql.
abbrev pub text_or : String → Option Value → String
text_or default (some (text s)) = s
text_or default other = default

abbrev pub texts_or : List String → Option Value → List String
texts_or default (some (texts l)) = l
texts_or default other = default

abbrev pub num_or : ℕ → Option Value → ℕ
num_or default (some (num n)) = n
num_or default other = default

unfoldable pub same_email : Platform → String → User → Bool
same_email p email user = p.sql_lower user.email == p.sql_lower email

-- The row that an INSERT makes of a row map.
new_user : RowMap → ℕ → Tables → User
new_user rm now t = record {
  id = t.next_user_id;
  email = text_or "" (lookup "email" rm);
  password_hash = text_or "" (lookup "password_hash" rm);
  name = text_or "" (lookup "name" rm);
  roles = texts_or [] (lookup "roles" rm);
  created_at = num_or now (lookup "created_at" rm);
  updated_at = num_or now (lookup "updated_at" rm);
}

-- INSERT INTO users … RETURNING …, under the unique index on lower(email). The identity column
-- advances in either case.
add_user : Platform → User → Statement User
add_user p user now t =
    if any (same_email p user.email) t.users
    then (
      record { items = []; broken = some (sentinel (pg_error "23505" email_unique_index)) },
      record t { next_user_id = suc t.next_user_id },
    )
    else (
      record { items = user ∷ []; broken = none },
      record t { users = t.users ++ user ∷ []; next_user_id = suc t.next_user_id },
    )

unfoldable pub insert_user : Platform → RowMap → Statement User
unfolding new_user add_user
insert_user p rm now t = add_user p (new_user rm now t) now t

-- SELECT … FROM users WHERE lower(email) = lower($1)
unfoldable pub users_by_email : Platform → String → Statement User
users_by_email p email now t =
    (record { items = keep (same_email p email) t.users; broken = none }, t)

-- SELECT … FROM users WHERE id = $1
unfoldable pub users_by_id : ℕ → Statement User
users_by_id id now t = (record { items = keep (λ u. nat_eq u.id id) t.users; broken = none }, t)

unfoldable pub by_email : Platform → String → Exec Store User
by_email p email = find_exactly_one p (users_by_email p (trim_space email))

unfoldable pub by_id : Platform → ℕ → Exec Store User
by_id p id = find_exactly_one p (users_by_id id)

pub record CreateInput : Type 0 where
  pub email : String
  pub password : String
  pub name : String
  pub roles : List String

-- The local part of an email, if it is not empty.
local_part : String → Option (String × String) → String
local_part email none = email
local_part email (some (before, after)) = if is_empty before then email else before

unfoldable pub display_name : String → String → String
unfolding local_part
display_name name email =
    if is_empty (trim_space name) then local_part email (cut b'@' email) else trim_space name

inserted : String → Result User → Result User
inserted email (ok user) = ok user
inserted email (err e) =
    if is_email_unique_violation e
    then err (detailed email_taken email)
    else err (wrap "inserting user" e)

-- The fields that the caller leaves out are Go's zero values.
abbrev pub user_of : CreateInput → String → String → User
user_of given email hash = record {
  id = 0;
  email = email;
  password_hash = hash;
  name = display_name given.name email;
  roles = given.roles;
  created_at = 0;
  updated_at = 0;
}

-- The part of CreateTx behind its checks.
store_user : Platform → CreateInput → String → Exec Store User
unfolding inserted
store_user p given email = do
  hash ← wrapping "hashing password" (hash_password p given.password)
  created ← attempt (insert p (insert_user p (to_row_map (user_of given email hash))))
  lift (inserted email created)

unfoldable pub create : Platform → CreateInput → Exec Store User
unfolding store_user
create p given =
    if is_empty (trim_space given.email)
    then fail (sentinel email_required)
    else elim (validate_password given.password) [
      | some e ↦ fail e
      | none ↦ store_user p given (trim_space given.email)
    ]

-- Unknown email: the compare against the dummy hash is made and its result dropped.
check_found : Platform → String → Result User → Exec Store User
check_found p password (err e) =
    if is e not_found
    then (do
      attempt (compare_password p password (dummy_hash p))
      fail (sentinel invalid_credentials))
    else fail e
check_found p password (ok user) = do
  matches ← wrapping "comparing password hash" (compare_password p password user.password_hash)
  if matches then pure user else fail (sentinel invalid_credentials)

unfoldable pub authenticate : Platform → String → String → Exec Store User
unfolding check_found
authenticate p email password = do found ← attempt (by_email p email); check_found p password found
