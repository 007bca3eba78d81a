-- ===== src/Web/Access/Keeping.antt =====
-- LoadUser leaves the users as they are where what it runs does.
use go_bootstrap.Prelude.{List, refl, ◌∙◌, ◌==◌, nat_eq}
use go_bootstrap.Errors.{is, not_found, Result, ok, err}
use go_bootstrap.Exec.Keeping.{continue-Shows, if-Shows}
use go_bootstrap.Store.{User}
use go_bootstrap.Platform.{Platform}
use go_bootstrap.Auth.Users.{by_id, password_epoch}
use go_bootstrap.Auth.Users.Identity.{by_id-Keeps}
use go_bootstrap.Web.Context.{Request, Site, Handler}
use go_bootstrap.Web.Handlers.Keeping.{users_in, KeepsUsers}
use go_bootstrap.Web.Access.{attach, check_session, load_user}

module _ {V : Type 0} (view : Request → List User → V) (site : Site) (p : Platform) where
  check_session-Keeps :
      (next : Handler site) (found : Result User)
      → KeepsUsers view site next
      → KeepsUsers view site (check_session site p next found)
  unfolding check_session attach
  check_session-Keeps next (err e) h c =
      if-Shows (users_in view site) (is e not_found) _ _ c (h _) refl
  check_session-Keeps next (ok user) h c =
      if-Shows (users_in view site)
        (site.get_string "password_epoch" c.session == password_epoch p user) _ _ c (h _)
        (continue-Shows (users_in view site) _ _ _ refl (λ _. h))

  pub load_user-Keeps :
      (next : Handler site)
      → KeepsUsers view site next
      → KeepsUsers view site (load_user site p next)
  unfolding load_user
  load_user-Keeps next h c =
      if-Shows (users_in view site) (nat_eq (site.get_int "user_id" c.session) 0) _ _ c (h c) (
        check_session-Keeps next (by_id p (site.get_int "user_id" c.session) c.store).0 h _
        ∙ by_id-Keeps (view c.request) p (site.get_int "user_id" c.session) c.store)
