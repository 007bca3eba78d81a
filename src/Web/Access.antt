-- ===== src/Web/Access.antt =====
-- web/auth.go: who is signed in, and what that opens.
pub mod Guards
pub mod Roles
pub mod Answering
pub mod Keeping
pub mod Revocation
use go_bootstrap.Prelude.{ℕ, String, Bool, Option, none, some, ◌==◌, nat_eq, if◌then◌else◌}
use go_bootstrap.Errors.{
  Error, is, not_found, missing_role, wrap, detailed, http_wrap, Result, ok, err,
}
use go_bootstrap.Exec.{Exec, fail, wrapping, attempt, ◌>>=◌, ◌>>◌}
use go_bootstrap.Store.{User}
use go_bootstrap.Platform.{Platform}
use go_bootstrap.Auth.Users.{by_id, password_epoch, has_role}
use go_bootstrap.Web.Context.{
  Request, Site, Ctx, Handler, Middleware, on_store, on_session, try_session, asks,
}
use go_bootstrap.Web.Secure.{safe_redirect}

module _ (site : Site) (p : Platform) where
  -- c.SetRequest with the user in the request's context
  attach : User → Handler site
  attach user c = (ok tt, record c { user = some user })

  check_session : Handler site → Result User → Handler site
  check_session next (err e) =
      if is e not_found
      then (do on_session site (site.remove "user_id"); next)
      else fail (wrap "loading session user" e)
  check_session next (ok user) = do
    epoch ← asks site (λ c. site.get_string "password_epoch" c.session)
    if epoch == password_epoch p user
        then (do attach user; next)
        else do wrapping "destroying stale-epoch session" (try_session site site.destroy); next

  unfoldable pub load_user : Middleware site
  unfolding attach check_session
  load_user next = do
    id ← asks site (λ c. site.get_int "user_id" c.session)
    if nat_eq id 0
        then next
        else do found ← attempt (on_store site (by_id p id)); check_session next found

module _ (site : Site) where
  -- `next` takes the user too, which it reads by CurrentUser and does not find nil.
  unfoldable pub require_signin : (User → Handler site) → Handler site
  require_signin next c = elim c.user [
    | some user ↦ next user c
    | none ↦
        (do
          on_session site (site.put_string "after_signin" c.request.uri)
          safe_redirect site "/signin")
          c
  ]

  unfoldable pub require_user : Middleware site
  unfolding require_signin
  require_user next = require_signin (λ _. next)

  allowed : Option Error → Handler site → Handler site
  allowed none next = next
  allowed (some e) next = fail (http_wrap 403 "forbidden" e)

  unfoldable pub require_policy : (User → Option Error) → Middleware site
  unfolding require_signin allowed
  require_policy policy next = require_signin (λ user. allowed (policy user) next)

  unfoldable pub require_role : String → Middleware site
  unfolding require_policy
  require_role role =
      require_policy
        (λ user. if has_role user role then none else some (detailed missing_role role))
