-- ===== src/Web/Handlers/Answering.antt =====
-- Each handler answers: when it returns no error, it has written a page or a redirect.
use go_bootstrap.Prelude.{◌≡◌, refl, String, Bool, Option, none, some, inl, inr}
use go_bootstrap.Prelude.Text.{is_empty}
use go_bootstrap.Errors.{
  Error, is, invalid_credentials, reset_token_invalid, wrap, map_err, Result, ok, err,
}
use go_bootstrap.Store.{User}
use go_bootstrap.Platform.{Platform}
use go_bootstrap.Db.{in_tx}
use go_bootstrap.Auth.Reset.{check_reset_token, reset_password}
use go_bootstrap.Web.Context.{LayoutData, Page, Site, Handler}
use go_bootstrap.Web.Answers.{
  Answers, continue-Answered, option-Answered, fail-Answered, if-Answered,
}
use go_bootstrap.Web.Throttle.{throttle_blocked, throttle_fail}
use go_bootstrap.Auth.Users.{by_email}
use go_bootstrap.Web.Render.{write_page, render_page}
use go_bootstrap.Web.Secure.{safe_redirect}
use go_bootstrap.Web.Access.{require_signin}
use go_bootstrap.Web.Handlers.{
  password_policy_message, parse_form, signin_key, reset_key, flash_page, flash_redirect,
  signin_form, start_session, answer_signin, try_signin, signin_submit, password_reset_request_form,
  enqueue_reset, request_reset, password_reset_request, show_confirm, password_reset_confirm_form,
  answer_reset, password_reset_confirm, signout, home,
}

module _ (site : Site) where
  write_page-Answers :
      (rendered : Option Error) (layout : LayoutData) (body : Page)
      → site.render layout body ≡ rendered
      → Answers (write_page site layout body)
  unfolding write_page
  write_page-Answers none layout body h c = rw (write_page, h) (inl refl)
  write_page-Answers (some e) layout body h c = rw (write_page, h) (inr (_, refl))

  pub render_page-Answers : (title : String) (body : Page) → Answers (render_page site title body)
  unfolding render_page
  render_page-Answers title body c =
      continue-Answered _ _ _ (λ user. write_page-Answers (site.render _ body) _ body refl)

  pub safe_redirect-Answers : (path : String) → Answers (safe_redirect site path)
  unfolding safe_redirect
  safe_redirect-Answers path c = inl refl

  flash_page-Answers :
      (p : Platform) (msg title : String) (body : Page) → Answers (flash_page site p msg title body)
  unfolding flash_page
  flash_page-Answers p msg title body c =
      continue-Answered _ _ _ (λ _. render_page-Answers title body)

  flash_redirect-Answers :
      (p : Platform) (kind msg path : String) → Answers (flash_redirect site p kind msg path)
  unfolding flash_redirect
  flash_redirect-Answers p kind msg path c =
      continue-Answered _ _ _ (λ _. safe_redirect-Answers path)

  pub require_signin-Answers :
      (next : User → Handler site)
      → ((user : User) → Answers (next user))
      → Answers (require_signin site next)
  unfolding require_signin
  require_signin-Answers next h c =
      option-Answered c.user (λ user. next user c) _ (λ user. h user c)
        (safe_redirect-Answers "/signin" _)

module _ (site : Site) (p : Platform) where
  pub signin_form-Answers : Answers (signin_form site p)
  unfolding signin_form
  signin_form-Answers c =
      option-Answered c.user (λ _. safe_redirect site "/" c) _
        (λ _. safe_redirect-Answers site "/" c) (render_page-Answers site _ _ c)

  start_session-Answers : (user : User) → Answers (start_session site p user)
  unfolding start_session
  start_session-Answers user c = continue-Answered _ _ _ (λ _ c. safe_redirect-Answers site _ _)

  answer_signin-Answers :
      (key email : String) (found : Result User) → Answers (answer_signin site p key email found)
  unfolding answer_signin
  answer_signin-Answers key email (ok user) c = start_session-Answers user _
  answer_signin-Answers key email (err e) c =
      if-Answered (is e invalid_credentials) _ _ c
        (continue-Answered _ _ _ (λ _. flash_page-Answers site p _ _ _)) (fail-Answered _ c)

  try_signin-Answers :
      (key email password : String) (blocked : Bool)
      → Answers (try_signin site p key email password blocked)
  unfolding try_signin
  try_signin-Answers key email password blocked c =
      if-Answered blocked _ _ c (flash_page-Answers site p _ _ _ c)
        (answer_signin-Answers key email _ _)

  pub signin_submit-Answers : Answers (signin_submit site p)
  unfolding signin_submit
  signin_submit-Answers c = continue-Answered (parse_form site p c).0 _ _ (λ _ c.
      continue-Answered
        (map_err (wrap "checking signin throttle")
          (throttle_blocked p (signin_key site p c.request) c.store).0)
        _ _ (try_signin-Answers _ _ _))

  pub password_reset_request_form-Answers : Answers (password_reset_request_form site p)
  unfolding password_reset_request_form
  password_reset_request_form-Answers = render_page-Answers site _ _

  request_reset-Answers :
      (key email : String) (blocked : Bool) → Answers (request_reset site p key email blocked)
  unfolding request_reset
  request_reset-Answers key email blocked c =
      if-Answered blocked _ _ c (flash_page-Answers site p _ _ _ c) (
        continue-Answered (map_err (wrap "recording reset request") (throttle_fail key c.store).0) _
          _
          (λ _ c.
            continue-Answered (enqueue_reset site p (by_email p email c.store).0 _).0 _ _
              (λ _. flash_redirect-Answers site p _ _ _)))

  pub password_reset_request-Answers : Answers (password_reset_request site p)
  unfolding password_reset_request
  password_reset_request-Answers c = continue-Answered (parse_form site p c).0 _ _ (λ _ c.
      continue-Answered
        (map_err (wrap "checking reset throttle")
          (throttle_blocked p (reset_key site p c.request) c.store).0)
        _ _ (request_reset-Answers _ _))

  show_confirm-Answers :
      (token : String) (live : Result (Unit {0})) → Answers (show_confirm site p token live)
  unfolding show_confirm
  show_confirm-Answers token (ok u) c = render_page-Answers site _ _ c
  show_confirm-Answers token (err e) c =
      if-Answered (is e reset_token_invalid) _ _ c (flash_redirect-Answers site p _ _ _ c)
        (fail-Answered _ c)

  pub password_reset_confirm_form-Answers : Answers (password_reset_confirm_form site p)
  unfolding password_reset_confirm_form
  password_reset_confirm_form-Answers c =
      show_confirm-Answers (c.request.query "token")
        (check_reset_token p (c.request.query "token") c.store).0 _

  answer_reset-Answers :
      (token : String) (done : Result User) → Answers (answer_reset site p token done)
  unfolding answer_reset
  answer_reset-Answers token (ok user) c = flash_redirect-Answers site p _ _ _ c
  answer_reset-Answers token (err e) c =
      if-Answered (is e reset_token_invalid) _ _ c (flash_redirect-Answers site p _ _ _ c) (
        if-Answered (is_empty (password_policy_message e)) _ _ c (fail-Answered _ c)
          (flash_page-Answers site p _ _ _ c))

  pub password_reset_confirm-Answers : Answers (password_reset_confirm site p)
  unfolding password_reset_confirm
  password_reset_confirm-Answers c = continue-Answered (parse_form site p c).0 _ _ (λ _ c.
      answer_reset-Answers (c.request.form "token")
        (in_tx (reset_password p (c.request.form "token") (c.request.form "password")) c.store).0 _)

  pub signout-Answers : Answers (signout site p)
  unfolding signout
  signout-Answers c = continue-Answered _ _ _ (λ _. safe_redirect-Answers site _)

  pub home-Answers : Answers (home site p)
  unfolding home
  home-Answers = require_signin-Answers site _ (λ user. render_page-Answers site _ _)
