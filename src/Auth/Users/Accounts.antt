-- ===== src/Auth/Users/Accounts.antt =====
-- The users table: emails and ids stay unique, whatever CreateTx is given and whatever fails.
use go_bootstrap.Prelude.{
  ℕ, suc, ◌<◌, String, ◌≡◌, ◌≢◌, refl, ap, subst, ◌⊎◌, inl, inr, false, Option, none, some, List,
  [], ◌∷◌, ◌++◌, ◌==◌, arith, any, All, All-append, Bool-cases,
}
use go_bootstrap.Prelude.Text.{is_empty, trim_space}
use go_bootstrap.Errors.{Error, wrap, Result, ok, err, map_err}
use go_bootstrap.Exec.{Exec, fail, continue}
use go_bootstrap.Store.{User, Store, Tables}
use go_bootstrap.Platform.{Platform}
use go_bootstrap.Db.{insert}
use go_bootstrap.Db.Queries.{tables-find_exactly_one}
use go_bootstrap.Db.RowMap.{RowMap}
use go_bootstrap.Auth.Users.{
  same_email, new_user, add_user, insert_user, to_row_map, CreateInput, user_of, validate_password,
  hash_password, store_user, create, inserted,
}

-- Two users that differ in their ids and in their emails, as Postgres compares them.
abbrev Differ : Platform → User → User → Type 0
Differ p u v = ((p.sql_lower u.email == p.sql_lower v.email) ≡ false) × (u.id ≢ v.id)

abbrev Distinct : Platform → List User → Type 0
Distinct p [] = Unit
Distinct p (u ∷ us) = All (Differ p u) us × Distinct p us

pub record IsSound (p : Platform) (t : Tables) : Type 0 where
  pub distinct : Distinct p t.users
  pub below : All (λ u. u.id < t.next_user_id) t.users

module _ (p : Platform) where
  All-Differ :
      (v : User) (us : List User)
      → any (same_email p v.email) us ≡ false
      → All (λ u. u.id < v.id) us
      → All (λ u. Differ p u v) us
  unfolding same_email
  All-Differ v [] h k = tt
  All-Differ v (u ∷ us) h k = (ground arith, All-Differ v us (ground arith) k.1)

  Distinct-concat :
      (v : User) (us : List User)
      → Distinct p us
      → All (λ u. Differ p u v) us
      → Distinct p (us ++ v ∷ [])
  Distinct-concat v [] h k = (tt, tt)
  Distinct-concat v (u ∷ us) h k =
      (All-append (Differ p u) us (v ∷ []) h.0 (k.0, tt), Distinct-concat v us h.1 k.1)

  All-weaken : (n : ℕ) (us : List User) → All (λ u. u.id < n) us → All (λ u. u.id < suc n) us
  All-weaken n [] h = tt
  All-weaken n (u ∷ us) h = (omega arith, All-weaken n us h.1)

  add_user-IsSound :
      (user : User) (now : ℕ) (t : Tables)
      → user.id ≡ t.next_user_id
      → IsSound p t
      → IsSound p (add_user p user now t).1
  unfolding add_user
  add_user-IsSound user now t e s = elim (Bool-cases (any (same_email p user.email) t.users)) [
    | inl taken ↦
        rw taken
          (record { distinct = s.distinct; below = All-weaken t.next_user_id t.users s.below })
    | inr free ↦ rw free (record {
      distinct =
          Distinct-concat user t.users s.distinct (All-Differ user t.users free (rw e s.below));
      below =
          All-append (λ u. u.id < suc t.next_user_id) t.users (user ∷ [])
            (All-weaken t.next_user_id t.users s.below) (omega (arith, ap suc e), tt);
    })
  ]

  insert_user-IsSound :
      (rm : RowMap) (now : ℕ) (t : Tables) → IsSound p t → IsSound p (insert_user p rm now t).1
  unfolding insert_user
  insert_user-IsSound rm now t s = add_user-IsSound (new_user rm now t) now t refl s

  pub tables-hash_password :
      (password : String) (s : Store) → (hash_password p password s).1.tables ≡ s.tables
  unfolding hash_password
  tables-hash_password password s = ground arith

  -- What an attempt to store a user leaves, whatever fails.
  abbrev Stored : Tables → Tables → Type 0
  Stored t t' = (t' ≡ t) ⊎ ((rm : RowMap) × (now : ℕ) × (t' ≡ (insert_user p rm now t).1))

  Stored-IsSound : {t t' : Tables} → Stored t t' → IsSound p t → IsSound p t'
  Stored-IsSound (inl e) s = rw e s
  Stored-IsSound {t} (inr (rm, now, e)) s = rw e (insert_user-IsSound rm now t s)

  insert-Stored :
      (rm : RowMap) (s : Store) → Stored s.tables (insert p (insert_user p rm) s).1.tables
  unfolding insert
  insert-Stored rm s = elim (tables-find_exactly_one p (insert_user p rm) s) [
    | inl e ↦ inl e
    | inr e ↦ inr (rm, s.db_now, e)
  ]

  store_hashed :
      (given : CreateInput) (email : String) (r : Result String) (s : Store)
      → Stored s.tables
          (continue r
            (λ hash s'.
              let m = insert p (insert_user p (to_row_map (user_of given email hash))) s' in
              (inserted email m.0, m.1))
            s).1.tables
  store_hashed given email (ok hash) s = insert-Stored (to_row_map (user_of given email hash)) s
  store_hashed given email (err e) s = inl refl

  store_user-Stored :
      (given : CreateInput) (email : String) (s : Store)
      → Stored s.tables (store_user p given email s).1.tables
  unfolding store_user
  store_user-Stored given email s =
      subst (λ t. Stored t (store_user p given email s).1.tables)
        (tables-hash_password given.password s)
        (store_hashed given email
          (map_err (wrap "hashing password") (hash_password p given.password s).0)
          (hash_password p given.password s).1)

  checked-Stored :
      (given : CreateInput) (e : Option Error) (s : Store)
      → Stored s.tables
          ((elim e as (λ _. Exec Store User) [
            | some e ↦ fail e
            | none ↦ store_user p given (trim_space given.email)
          ])
            s).1.tables
  checked-Stored given (some e) s = inl refl
  checked-Stored given none s = store_user-Stored given (trim_space given.email) s

  create-Stored : (given : CreateInput) (s : Store) → Stored s.tables (create p given s).1.tables
  unfolding create
  create-Stored given s = elim (Bool-cases (is_empty (trim_space given.email))) [
    | inl missing ↦ rw missing (inl refl)
    | inr there ↦ rw there (checked-Stored given (validate_password given.password) s)
  ]

  -- Creating a user keeps the ids and the emails of the table unique, whatever the input and whatever
  -- call fails.
  pub create-IsSound :
      (given : CreateInput) (s : Store) → IsSound p s.tables → IsSound p (create p given s).1.tables
  create-IsSound given s h = Stored-IsSound (create-Stored given s) h
