-- ===== src/Auth/Users/Creation.antt =====
-- What CreateTx returns and stores on each of its branches.

use go_bootstrap.Prelude.{
  ℕ, suc, String, ◌≡◌, refl, ap, ◌∙◌, Bool, true, false, none, some, List, [], ◌∷◌, ◌++◌, arith,
  if◌then◌else◌, any, Bool-cases, Option-cases, inl, inr,
}
use go_bootstrap.Prelude.Text.{is_empty, trim_space}
use go_bootstrap.Errors.{pg_error, detailed, sentinel, email_required, email_taken, Result, ok, err}
use go_bootstrap.Store.{User, Store, no_fault, Tables}
use go_bootstrap.Platform.{Platform}
use go_bootstrap.Db.{insert}
use go_bootstrap.Db.Queries.{only, find_exactly_one-eq}
use go_bootstrap.Db.RowMap.{text, texts, is_unset, lookup, lookup-filter_unset}
use go_bootstrap.Auth.Users.{
  same_email, new_user, add_user, insert_user, to_row_map, email_unique_index,
  is_email_unique_violation, CreateInput, user_of, display_name, validate_password, hash_password,
  store_user, create, text_or, texts_or,
}

text_or-unset : (s : String) → text_or "" (if is_unset (text s) then none else some (text s)) ≡ s
unfolding is_unset
text_or-unset String.[] = refl
text_or-unset (String.◌∷◌ c s) = refl

texts_or-unset :
    (l : List String) → texts_or [] (if is_unset (texts l) then none else some (texts l)) ≡ l
unfolding is_unset
texts_or-unset [] = refl
texts_or-unset (s ∷ l) = refl

-- the row of a created user
abbrev pub row_of : CreateInput → String → ℕ → ℕ → User
row_of given hash id now = record {
  id = id;
  email = trim_space given.email;
  password_hash = hash;
  name = display_name given.name (trim_space given.email);
  roles = given.roles;
  created_at = now;
  updated_at = now;
}

new_user-to_row_map :
    (given : CreateInput) (hash : String) (now : ℕ) (t : Tables)
    → new_user (to_row_map (user_of given (trim_space given.email) hash)) now t
      ≡ row_of given hash t.next_user_id now
unfolding new_user to_row_map lookup is_unset
new_user-to_row_map given hash now t = simp (lookup-filter_unset, text_or-unset, texts_or-unset)

-- What creating a user gives and what it adds to the table, from the rules alone.
abbrev pub outcome : Platform → CreateInput → String → Store → Result User × List User
outcome p given hash s =
    if is_empty (trim_space given.email)
    then (err (sentinel email_required), s.tables.users)
    else elim (validate_password given.password) [
      | some e ↦ (err e, s.tables.users)
      | none ↦
          if any (same_email p (trim_space given.email)) s.tables.users
          then (err (detailed email_taken (trim_space given.email)), s.tables.users)
          else let user = row_of given hash s.tables.next_user_id s.db_now in
            (ok user, s.tables.users ++ user ∷ [])
    ]

-- the store behind a hash
abbrev hashed : Store → Store
hashed s = record s { calls = suc s.calls; draws = suc s.draws }

module _ (p : Platform) (given : CreateInput) (hash : String) (s : Store) where
  hash_password_lem :
      (s.faults s.calls).at_call ≡ none
      → p.create_hash s.draws given.password ≡ ok hash
      → hash_password p given.password s ≡ (ok hash, hashed s)
  unfolding hash_password
  hash_password_lem quiet drawn = ground (arith, quiet, drawn)

  abbrev taken : Bool
  taken = any (same_email p (trim_space given.email)) s.tables.users

  abbrev new_row : User
  new_row = row_of given hash s.tables.next_user_id s.db_now

  insert_user-add_user :
      insert_user p (to_row_map (user_of given (trim_space given.email) hash)) s.db_now s.tables
      ≡ add_user p new_row s.db_now s.tables
  unfolding insert_user
  insert_user-add_user =
      ap (λ u. add_user p u s.db_now s.tables) (new_user-to_row_map given hash s.db_now s.tables)

  insert_user-free :
      taken ≡ false
      → insert_user p (to_row_map (user_of given (trim_space given.email) hash)) s.db_now s.tables
        ≡ (
          record { items = new_row ∷ []; broken = none },
          record s.tables {
            users = s.tables.users ++ new_row ∷ [];
            next_user_id = suc s.tables.next_user_id;
          },
        )
  insert_user-free free = insert_user-add_user ∙ (unfold add_user in rw free)

  insert_user-taken :
      taken ≡ true
      → insert_user p (to_row_map (user_of given (trim_space given.email) hash)) s.db_now s.tables
        ≡ (
          record { items = []; broken = some (sentinel (pg_error "23505" email_unique_index)) },
          record s.tables { next_user_id = suc s.tables.next_user_id },
        )
  insert_user-taken e = insert_user-add_user ∙ (unfold add_user in rw e)

  module _ (slot : (s.faults s.calls).at_call ≡ none) (quiet : s.faults (suc s.calls) ≡ no_fault)
      (drawn : p.create_hash s.draws given.password ≡ ok hash) where
    store_user-free :
        taken ≡ false
        → store_user p given (trim_space given.email) s ≡ (
          ok new_row,
          record s {
            tables = record s.tables {
              users = s.tables.users ++ new_row ∷ [];
              next_user_id = suc s.tables.next_user_id;
            };
            calls = suc (suc s.calls);
            draws = suc s.draws;
          },
        )
    unfolding store_user insert only
    store_user-free free = rw (
      hash_password_lem slot drawn,
      find_exactly_one-eq p
          (insert_user p (to_row_map (user_of given (trim_space given.email) hash))) (hashed s)
          (new_row ∷ []) none _ quiet (insert_user-free free),
    )

    store_user-taken :
        taken ≡ true
        → store_user p given (trim_space given.email) s ≡ (
          err (detailed email_taken (trim_space given.email)),
          record s {
            tables = record s.tables { next_user_id = suc s.tables.next_user_id };
            calls = suc (suc s.calls);
            draws = suc s.draws;
          },
        )
    unfolding store_user insert only is_email_unique_violation
    store_user-taken e = rw (
      hash_password_lem slot drawn,
      find_exactly_one-eq p
          (insert_user p (to_row_map (user_of given (trim_space given.email) hash))) (hashed s) []
          (some (sentinel (pg_error "23505" email_unique_index))) _ quiet (insert_user-taken e),
    )

    -- Where the hash is made and no call fails, `create` returns and stores what the rules say: an
    -- empty email, a password against the policy or an email that a user has is refused and leaves
    -- the users as they were, and anything else adds one row, last, with the trimmed email, the hash,
    -- the display name, the roles and the time of the database.
    pub create_lem :
        ((create p given s).0, (create p given s).1.tables.users) ≡ outcome p given hash s
    unfolding create
    create_lem = elim (Bool-cases (is_empty (trim_space given.email))) [
      | inl missing ↦ rw missing refl
      | inr there ↦ elim (Option-cases (validate_password given.password)) [
        | inr (e, refused) ↦ rw (there, refused, create, outcome) refl
        | inl fine ↦ elim (Bool-cases taken) [
          | inl e ↦ rw (there, fine, e, store_user-taken e, create, outcome) refl
          | inr free ↦ rw (there, fine, free, store_user-free free, create, outcome) refl
        ]
      ]
    ]
