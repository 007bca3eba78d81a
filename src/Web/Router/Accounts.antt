-- ===== src/Web/Router/Accounts.antt =====
-- No request changes who the users are, and only one changes a password.
use go_bootstrap.Prelude.{
  ◌≡◌, refl, sym, ap, ◌∙◌, [], ◌⊎◌, inl, inr, true, false, List, Bool-cases, if◌then◌else◌,
}
use go_bootstrap.Store.{User}
use go_bootstrap.Auth.Users.Identity.{Account, accounts}
use go_bootstrap.Auth.Reset.Keeping.{accounts-IsSteady, reset_password-Keeps}
use go_bootstrap.Platform.{Platform}
use go_bootstrap.Web.Context.{Request, Site, Ctx, Handler}
use go_bootstrap.Web.Handlers.Keeping.{users_in, KeepsUsers}
use go_bootstrap.Web.Router.{Outside, serve}
use go_bootstrap.Web.Router.Keeping.{is_reset, serve-Keeps}

-- The handlers that the model does not know leave the tables and the request alone.
pub record LeavesAlone (site : Site) (handler : Handler site) : Type 0 where
  pub tables-eq : (c : Ctx site) → (handler c).1.store.tables ≡ c.store.tables
  pub request-eq : (c : Ctx site) → (handler c).1.request ≡ c.request

LeavesAlone-Keeps :
    {V : Type 0} (view : Request → List User → V) (site : Site) (handler : Handler site)
    → LeavesAlone site handler
    → KeepsUsers view site handler
LeavesAlone-Keeps view site handler alone c =
    ap (λ r. view r (handler c).1.store.tables.users) (alone.request-eq c)
    ∙ ap (λ t. view c.request t.users) (alone.tables-eq c)

abbrev accounts_of : Request → List User → List Account
accounts_of r us = accounts us

-- the request, and the users unless it redeems a link
abbrev users_unless_reset : Request → List User → Request × List User
users_unless_reset r us = (r, if is_reset r then [] else us)

module _ (site : Site) (p : Platform) (o : Outside site) (assets : LeavesAlone site o.assets)
    (unrouted : LeavesAlone site o.unrouted) (c : Ctx site) where
  serve-accounts : users_in accounts_of site (serve site p o c).1 ≡ users_in accounts_of site c
  serve-accounts =
      serve-Keeps accounts_of site p o
        (λ r redeems token password.
          reset_password-Keeps accounts p accounts-IsSteady token password)
        (LeavesAlone-Keeps accounts_of site o.assets assets)
        (LeavesAlone-Keeps accounts_of site o.unrouted unrouted) c

  hidden :
      (r : Request) (us vs : List User)
      → is_reset r ≡ true
      → users_unless_reset r us ≡ users_unless_reset r vs
  hidden r us vs h = ap (λ l. (r, l)) (rw h refl)

  serve-users :
      users_in users_unless_reset site (serve site p o c).1 ≡ users_in users_unless_reset site c
  serve-users =
      serve-Keeps users_unless_reset site p o (λ r redeems token password s. hidden r _ _ redeems)
        (LeavesAlone-Keeps users_unless_reset site o.assets assets)
        (LeavesAlone-Keeps users_unless_reset site o.unrouted unrouted) c

  abbrev users_after : List User
  users_after = (serve site p o c).1.store.tables.users

  shown : (r : Request) (us : List User) → is_reset r ≡ false → (users_unless_reset r us).1 ≡ us
  shown r us h = rw h refl

  same-users : is_reset c.request ≡ false → users_after ≡ c.store.tables.users
  same-users other =
      sym (
        shown (serve site p o c).1.request users_after (ap (λ v. is_reset v.0) serve-users ∙ other))
      ∙ (ap (λ v. v.1) serve-users ∙ shown c.request c.store.tables.users other)

  -- Where the handlers of the static files and of a path without a route leave the tables and the request
  -- alone, no request changes who the users are: whatever the request, the session and the tables are, and
  -- whichever call fails, the chain adds and removes no user and changes no id, email, name, role or time
  -- of creation; and unless it is a POST to /password-reset/confirm, it changes nothing of any user, the
  -- password included.
  pub serve-keeps_accounts :
      (accounts users_after ≡ accounts c.store.tables.users)
      × ((is_reset c.request ≡ true) ⊎ (users_after ≡ c.store.tables.users))
  serve-keeps_accounts = (
    serve-accounts,
    elim (Bool-cases (is_reset c.request)) [
      | inl redeems ↦ inl redeems
      | inr other ↦ inr (same-users other)
    ],
  )
