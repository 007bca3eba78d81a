-- ===== src/Web/Access/Answering.antt =====
-- What RequireUser and LoadUser let through is answered.
use go_bootstrap.Prelude.{◌==◌, nat_eq}
use go_bootstrap.Errors.{is, not_found, Result, ok, err}
use go_bootstrap.Store.{User}
use go_bootstrap.Platform.{Platform}
use go_bootstrap.Auth.Users.{by_id, password_epoch}
use go_bootstrap.Web.Context.{Site, Handler}
use go_bootstrap.Web.Answers.{Answers, continue-Answered, fail-Answered, if-Answered}
use go_bootstrap.Web.Access.{attach, check_session, load_user}

module _ (site : Site) (p : Platform) where
  check_session-Answers :
      (next : Handler site) (found : Result User)
      → Answers next
      → Answers (check_session site p next found)
  unfolding check_session attach
  check_session-Answers next (err e) h c =
      if-Answered (is e not_found) _ _ c (h _) (fail-Answered _ c)
  check_session-Answers next (ok user) h c =
      if-Answered (site.get_string "password_epoch" c.session == password_epoch p user) _ _ c (h _)
        (continue-Answered _ _ _ (λ _. h))

  pub load_user-Answers : (next : Handler site) → Answers next → Answers (load_user site p next)
  unfolding load_user
  load_user-Answers next h c =
      if-Answered (nat_eq (site.get_int "user_id" c.session) 0) _ _ c (h c)
        (check_session-Answers next (by_id p (site.get_int "user_id" c.session) c.store).0 h _)
