-- ===== src/Auth/Users/Signin.antt =====
-- Authentication.
use go_bootstrap.Prelude.{
  suc, String, ◌≡◌, refl, ap, sym, ◌∙◌, ◌↔◌, true, false, none, List, [], ◌∷◌, arith, keep,
}
use go_bootstrap.Prelude.Text.{trim_space}
use go_bootstrap.Errors.{sentinel, invalid_credentials, ok, err}
use go_bootstrap.Store.{User, Store, no_fault}
use go_bootstrap.Platform.{Platform}
use go_bootstrap.Db.Queries.{only, find_exactly_one-eq}
use go_bootstrap.Auth.Users.{same_email, users_by_email, by_email, compare_password, authenticate}

-- the users with an email
abbrev pub matching : Platform → String → Store → List User
matching p email s = keep (same_email p (trim_space email)) s.tables.users

-- a store after one call of the driver
abbrev pub called : Store → Store
called s = record s { calls = suc s.calls }

pub by_email_lem :
    (p : Platform) (email : String) (s : Store)
    → s.faults s.calls ≡ no_fault
    → by_email p email s ≡ (only (matching p email s) none, called s)
unfolding by_email users_by_email
by_email_lem p email s h =
    find_exactly_one-eq p (users_by_email p (trim_space email)) s (matching p email s) none s.tables
      h refl

-- a store after a call, a wait for a slot and a compare
abbrev pub compared : Store → Store
compared s = record s { calls = suc (suc s.calls); compares = suc s.compares }

-- The two calls that `authenticate` makes do not fail.
pub record IsQuiet (s : Store) : Type 0 where
  pub lookup : s.faults s.calls ≡ no_fault
  pub slot : (s.faults (suc s.calls)).at_call ≡ none

module _ (p : Platform) (email password : String) (s : Store) where
  unknown_lem :
      IsQuiet s
      → matching p email s ≡ []
      → authenticate p email password s ≡ (err (sentinel invalid_credentials), compared s)
  unfolding authenticate only compare_password
  unknown_lem q h = rw (by_email_lem p email s q.lookup, h) (ground (arith, q.slot))

  wrong_lem :
      (user : User)
      → IsQuiet s
      → matching p email s ≡ user ∷ []
      → p.compare_hash password user.password_hash ≡ ok false
      → authenticate p email password s ≡ (err (sentinel invalid_credentials), compared s)
  unfolding authenticate only compare_password
  wrong_lem user q h k = rw (by_email_lem p email s q.lookup, h) (ground (arith, q.slot))

  pub right_lem :
      (user : User)
      → IsQuiet s
      → matching p email s ≡ user ∷ []
      → p.compare_hash password user.password_hash ≡ ok true
      → authenticate p email password s ≡ (ok user, compared s)
  unfolding authenticate only compare_password
  right_lem user q h k = rw (by_email_lem p email s q.lookup, h) (ground (arith, q.slot))

  authenticate-ok :
      (user : User)
      → IsQuiet s
      → (l : List User) → matching p email s ≡ l
      → (authenticate p email password s).0 ≡ ok user
      → (l ≡ user ∷ []) × (p.compare_hash password user.password_hash ≡ ok true)
  unfolding authenticate compare_password only
  authenticate-ok user q [] found h = cc (h, ap (λ r. r.0) (unknown_lem q found))
  authenticate-ok user q (u ∷ []) found h =
      let h' = rw (by_email_lem p email s q.lookup, found) at h in ground (arith, h', q.slot)
  authenticate-ok user q (u ∷ v ∷ l) found h =
      let h' = rw (by_email_lem p email s q.lookup, found) at h in ground (arith, h')

-- Without a fault, `authenticate` succeeds with a user exactly when that user is the only one whose
-- email matches and the password fits its hash.
pub authenticate_iff :
    (p : Platform) (email password : String) (s : Store) (user : User)
    → IsQuiet s
    → ((authenticate p email password s).0 ≡ ok user)
      ↔ ((matching p email s ≡ user ∷ []) × (p.compare_hash password user.password_hash ≡ ok true))
authenticate_iff p email password s user q = (
  authenticate-ok p email password s user q (matching p email s) refl,
  λ (found, fits). ap (λ r. r.0) (right_lem p email password s user q found fits),
)

-- Without a fault, an email that no user has and a wrong password for an email that a user has give
-- the same error, and leave the same store: as many calls, and as many compares of a hash.
pub authenticate_uniform :
    (p : Platform) (unknown email : String) (guess password : String) (user : User) (s : Store)
    → IsQuiet s
    → matching p unknown s ≡ []
    → matching p email s ≡ user ∷ []
    → p.compare_hash password user.password_hash ≡ ok false
    → authenticate p unknown guess s ≡ authenticate p email password s
authenticate_uniform p unknown email guess password user s q none_there one_there wrong_password =
    unknown_lem p unknown guess s q none_there
    ∙ sym (wrong_lem p email password s user q one_there wrong_password)
