-- ===== src/Auth/Users/Factory.antt =====
-- auth/factory.go: users for tests, under the emails that a Sequence makes unique. A panic of the
-- Sequence is none.
use go_bootstrap.Prelude.{String, Option, none, some, List, [], ◌∷◌}
use go_bootstrap.Prelude.Text.{◌+++◌}
use go_bootstrap.Errors.{Result}
use go_bootstrap.Store.{User, Store}
use go_bootstrap.Platform.{Platform}
use go_bootstrap.Auth.Users.{CreateInput, create}
use go_bootstrap.Auth.Users.Accounts.{IsSound, create-IsSound}
use go_bootstrap.Fixture.{Source, next}

abbrev pub make_password : String
make_password = "factory-pw"

abbrev pub MakeOption : Type 0
MakeOption = CreateInput → CreateInput

unfoldable pub with_email : String → MakeOption
with_email email given = record given { email = email }

unfoldable pub with_password : String → MakeOption
with_password password given = record given { password = password }

unfoldable pub with_name : String → MakeOption
with_name name given = record given { name = name }

unfoldable pub with_roles : List String → MakeOption
with_roles roles given = record given { roles = roles }

-- the loop over the options
apply_options : List MakeOption → CreateInput → CreateInput
apply_options [] given = given
apply_options (opt ∷ opts) given = apply_options opts (opt given)

-- the input of a user for a code
unfoldable pub made_input : String → List MakeOption → CreateInput
unfolding apply_options
made_input tag opts = apply_options opts (record {
  email = ("user-" +++ tag) +++ "@example.com";
  password = make_password;
  name = "User " +++ tag;
  roles = [];
})

module _ (source : Source) (p : Platform) where
  -- The store, and makeSeq with its source of random numbers
  abbrev pub Making : Type 0
  Making = Store × (List String × source.Seed)

  make_tagged :
      List MakeOption
      → Store
      → Option String
      → List String × source.Seed
      → Option (Result User) × Making
  make_tagged opts s none seq = (none, (s, seq))
  make_tagged opts s (some tag) seq =
      let (user, s') = create p (made_input tag opts) s in (some user, (s', seq))

  unfoldable pub make : List MakeOption → Making → Option (Result User) × Making
  unfolding make_tagged
  make opts (s, (used, seed)) = let (tag, seq) = next source used seed in make_tagged opts s tag seq

  make_tagged-IsSound :
      (opts : List MakeOption) (s : Store) (tag : Option String) (seq : List String × source.Seed)
      → IsSound p s.tables
      → IsSound p (make_tagged opts s tag seq).1.0.tables
  unfolding make_tagged
  make_tagged-IsSound opts s none seq h = h
  make_tagged-IsSound opts s (some tag) seq h = create-IsSound p (made_input tag opts) s h

  -- Whatever the options are, and whatever fails, a made user leaves the ids and the emails of the
  -- table unique.
  pub make-IsSound :
      (opts : List MakeOption) (s : Store) (used : List String) (seed : source.Seed)
      → IsSound p s.tables
      → IsSound p (make opts (s, (used, seed))).1.0.tables
  unfolding make
  make-IsSound opts s used seed h =
      make_tagged-IsSound opts s (next source used seed).0 (next source used seed).1 h
