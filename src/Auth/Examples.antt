-- ===== src/Auth/Examples.antt =====
-- The theorems about accounts and resets at a concrete platform and store.
use go_bootstrap.Prelude.{
  ℕ, suc, ◌+◌, ◌≤◌, ◌<◌, ◌⊎◌, String, ◌≡◌, ◌≢◌, refl, true, false, none, some, List, [], ◌∷◌, arith,
  keep, if◌then◌else◌, ◌↔◌,
}
use go_bootstrap.Errors.{sentinel, reset_token_invalid, ok, err}
use go_bootstrap.Store.{User, Store, no_fault}
use go_bootstrap.Store.Demo.{ada, ada_token, demo_store}
use go_bootstrap.Platform.Demo.{demo}
use go_bootstrap.Auth.Users.{same_email, validate_password, CreateInput, create, authenticate}
use go_bootstrap.Auth.Users.Slots.{
  hashing, queued, Slots, arrive, send, Reach, here, next, working, working-bounds,
}
use go_bootstrap.Auth.Users.Signin.{IsQuiet, matching, authenticate_iff, authenticate_uniform}
use go_bootstrap.Auth.Users.Creation.{outcome, create_lem}
use go_bootstrap.Fixture.{Source}
use go_bootstrap.Auth.Users.Factory.{make, with_name}
use go_bootstrap.Auth.Reset.{
  hash_reset_token, is_live, create_password_reset, check_reset_token, reset_password,
  reset_token_ttl,
}
use go_bootstrap.Auth.Reset.Retiring.{IsReset, reset_password-IsReset}
use go_bootstrap.Auth.Reset.Succeeding.{IsResettable}
use go_bootstrap.Auth.Reset.Renewing.{authenticate-reset_password}
use go_bootstrap.Auth.Reset.SingleUse.{reset_password-retires}
use go_bootstrap.Auth.Reset.Issuing.{IsIssuable, check-create_password_reset}

abbrev bob : CreateInput
bob = record { email = " bob@example.com "; password = "battery staple"; name = ""; roles = [] }

abbrev ada_reset : User
ada_reset = record ada { password_hash = "hash:battery staple"; updated_at = 1000 }

ada-IsQuiet : IsQuiet demo_store
ada-IsQuiet = record { lookup = refl; slot = refl }

ada_found : matching demo "ada@example.com" demo_store ≡ ada ∷ []
unfolding same_email go_bootstrap.Prelude.Text.trim_space
ada_found = refl

nobody_found : matching demo "eve@example.com" demo_store ≡ []
unfolding same_email go_bootstrap.Prelude.Text.trim_space
nobody_found = refl

reset_works : (reset_password demo "secret" "battery staple" demo_store).0 ≡ ok ada_reset
unfolding reset_password validate_password go_bootstrap.Auth.Reset.live_reset_token
    go_bootstrap.Db.find_exactly_one go_bootstrap.Store.query go_bootstrap.Auth.Reset.live_tokens
    is_live hash_reset_token go_bootstrap.Auth.Users.hash_password go_bootstrap.Db.update
    go_bootstrap.Db.exec go_bootstrap.Auth.Reset.set_password go_bootstrap.Auth.Reset.retire_tokens
    go_bootstrap.Auth.Users.by_id go_bootstrap.Auth.Users.users_by_id
reset_works = refl

ada_token_live :
    keep (is_live (hash_reset_token demo "secret") 1000) (ada_token ∷ []) ≡ ada_token ∷ []
unfolding is_live hash_reset_token
ada_token_live = refl

-- the store behind ada's reset, with its clock moved on
abbrev later_store : Store
later_store = record demo_store {
  tables = (reset_password demo "secret" "battery staple" demo_store).1.tables;
  db_now = 2000;
}

reset_password-retires_example :
    (check_reset_token demo "secret" later_store).0 ≡ err (sentinel reset_token_invalid)
reset_password-retires_example =
    reset_password-retires demo "secret" "battery staple" "secret" demo_store later_store ada_reset
      ada_token reset_works ada_token_live refl refl (omega arith) refl

reset_password-IsReset_example :
    (validate_password "battery staple" ≡ none)
    × IsReset demo "secret" "battery staple" demo_store ada_reset
        (reset_password demo "secret" "battery staple" demo_store).1
reset_password-IsReset_example =
    reset_password-IsReset demo "secret" "battery staple" demo_store ada_reset reset_works

ada-IsResettable : IsResettable demo "secret" "battery staple" demo_store ada "hash:battery staple"
unfolding validate_password is_live hash_reset_token
ada-IsResettable = record {
  quiet = λ n. refl;
  accepted = refl;
  row = ada_token;
  live = refl;
  found = refl;
  made = refl;
}

authenticate-reset_password_example :
    ((reset_password demo "secret" "battery staple" demo_store).0 ≡ ok ada_reset)
    × (((authenticate demo "ada@example.com" "battery staple" later_store).0 ≡ ok ada_reset)
        ↔ (demo.compare_hash "battery staple" "hash:battery staple" ≡ ok true))
authenticate-reset_password_example =
    authenticate-reset_password demo "secret" "battery staple" "ada@example.com" demo_store ada
      "hash:battery staple" later_store "battery staple" ada-IsResettable ada_found refl
      (record { lookup = refl; slot = refl })

authenticate_iff_example :
    ((authenticate demo "ada@example.com" "correct horse" demo_store).0 ≡ ok ada) ↔ (
      (matching demo "ada@example.com" demo_store ≡ ada ∷ [])
      × (demo.compare_hash "correct horse" ada.password_hash ≡ ok true))
authenticate_iff_example =
    authenticate_iff demo "ada@example.com" "correct horse" demo_store ada ada-IsQuiet

authenticate_uniform_example :
    authenticate demo "eve@example.com" "guess" demo_store
    ≡ authenticate demo "ada@example.com" "wrong horse" demo_store
authenticate_uniform_example =
    authenticate_uniform demo "eve@example.com" "ada@example.com" "guess" "wrong horse" ada
      demo_store ada-IsQuiet nobody_found ada_found refl

create_example :
    ((create demo bob demo_store).0, (create demo bob demo_store).1.tables.users)
    ≡ outcome demo bob "hash:battery staple" demo_store
create_example = create_lem demo bob "hash:battery staple" demo_store refl refl refl

ada-IsIssuable : IsIssuable demo "ada@example.com" "token" ada demo_store
unfolding hash_reset_token
ada-IsIssuable = record {
  lookup = refl;
  store = refl;
  found = ada_found;
  drawn = refl;
  fresh = refl;
}

-- the store behind the issue, at the last moment of the token's hour
abbrev issued_store : Store
issued_store = record demo_store {
  tables = (create_password_reset demo "ada@example.com" demo_store).1.tables;
  db_now = 3600000999;
}

check-create_password_reset_example : (check_reset_token demo "token" issued_store).0 ≡ ok tt
check-create_password_reset_example =
    check-create_password_reset demo "ada@example.com" "token" ada demo_store issued_store
      ada-IsIssuable refl refl

-- one caller works and another waits for the one place
abbrev busy_slots : Slots
busy_slots = record { filled = 1; callers = hashing ∷ queued ∷ [] }

busy : Reach 1 busy_slots
busy =
    next (next (next here (arrive 0 [])) (arrive 0 (queued ∷ [])))
      (send 0 [] (queued ∷ []) (omega arith))

working-bounds_example :
    (working busy_slots.callers ≤ 1) × ((busy_slots.filled < 1) ⊎ (working busy_slots.callers ≡ 1))
working-bounds_example = working-bounds 1 busy_slots busy

-- a source of random numbers that counts
abbrev counting : Source
counting = record { Seed = ℕ; int_n = λ bound seed. (seed, suc seed) }

abbrev emails : List User → List String
emails [] = []
emails (u ∷ l) = u.email ∷ emails l

-- Two users that the factory makes, the second with a name.
abbrev twice : List String
twice =
    let (first, after) = make counting demo [] (demo_store, ([], 0)) in
    let (second, last) = make counting demo (with_name "Ada" ∷ []) after in
    emails last.0.tables.users

factory_users : twice ≡ "ada@example.com" ∷ "user-abcde@example.com" ∷ "user-fghij@example.com" ∷ []
unfolding make go_bootstrap.Auth.Users.Factory.made_input with_name create validate_password
    go_bootstrap.Fixture.next go_bootstrap.Fixture.next_of
    go_bootstrap.Fixture.generate_random_string go_bootstrap.Auth.Users.hash_password
    go_bootstrap.Db.insert go_bootstrap.Db.find_exactly_one go_bootstrap.Store.query
    go_bootstrap.Auth.Users.insert_user go_bootstrap.Auth.Users.to_row_map
    go_bootstrap.Auth.Users.display_name go_bootstrap.Prelude.Text.trim_space
    go_bootstrap.Db.RowMap.filter_unset go_bootstrap.Db.RowMap.lookup
    go_bootstrap.Auth.Users.same_email go_bootstrap.Db.RowMap.is_unset go_bootstrap.Db.RowMap.remove
factory_users = refl
