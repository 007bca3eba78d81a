-- ===== src/Web/Handlers.antt =====
-- web/handlers_auth.go, with ParseForm of web/forms.go. The log line of a failed cleanup is not
-- modelled.
pub mod Signin
pub mod Reset
pub mod Answering
pub mod Keeping
use go_bootstrap.Prelude.{String, Bool, Option, none, some, if◌then◌else◌}
use go_bootstrap.Prelude.Text.{◌+++◌, trim_space, is_empty}
use go_bootstrap.Errors.{
  Error, is, not_found, invalid_credentials, reset_token_invalid, password_required,
  password_too_short, password_too_long, wrap, http_wrap, Result, ok, err,
}
use go_bootstrap.Exec.{Exec, pure, fail, wrapping, attempt, ◌>>=◌, ◌>>◌}
use go_bootstrap.Store.{User}
use go_bootstrap.Platform.{Platform}
use go_bootstrap.Db.{in_tx}
use go_bootstrap.Auth.Users.{by_email, authenticate, password_epoch}
use go_bootstrap.Auth.Reset.{check_reset_token, reset_password}
use go_bootstrap.Jobs.{insert_standalone}
use go_bootstrap.Web.Context.{
  Page, signin_page, password_reset_request_page, password_reset_confirm_page, home_page, Request,
  Site, Ctx, Handler, on_store, on_session, try_session, pop_string, asks,
}
use go_bootstrap.Web.Flash.{set_flash}
use go_bootstrap.Web.Render.{render_page}
use go_bootstrap.Web.Secure.{safe_redirect}
use go_bootstrap.Web.Access.{require_signin}
use go_bootstrap.Web.Throttle.{throttle_blocked, throttle_fail, throttle_reset}

unfoldable pub password_policy_message : Error → String
password_policy_message e =
    if is e password_required
    then "password is required"
    else if is e password_too_short
    then "password must be at least 8 characters"
    else if is e password_too_long
    then "that password is too long"
    else ""

module _ (site : Site) (p : Platform) where
  unfoldable pub parse_form : Handler site
  parse_form c = elim c.request.form_error [
    | none ↦ (ok tt, c)
    | some e ↦ (err (http_wrap 400 "malformed form" e), c)
  ]

  -- SetFlash, and the page again
  unfoldable pub flash_page : String → String → Page → Handler site
  flash_page msg title page = do set_flash site "error" msg; render_page site title page

  -- SetFlash, and a redirect
  unfoldable pub flash_redirect : String → String → String → Handler site
  flash_redirect kind msg path = do set_flash site kind msg; safe_redirect site path

  unfoldable pub signin_form : Handler site
  signin_form c = elim c.user [
    | some user ↦ safe_redirect site "/" c
    | none ↦ render_page site "Sign in" (signin_page "") c
  ]

  start_session : User → Handler site
  start_session user = do
    wrapping "renewing session" (try_session site site.renew_token)
    on_session site (site.put_int "user_id" user.id)
    on_session site (site.put_string "password_epoch" (password_epoch p user))
    path ← pop_string site "after_signin"
    safe_redirect site path

  answer_signin : String → String → Result User → Handler site
  answer_signin key email (ok user) = do
    attempt (on_store site (throttle_reset key))
    start_session user
  answer_signin key email (err e) =
      if is e invalid_credentials
      then (do
        wrapping "recording failed signin" (on_store site (throttle_fail key))
        flash_page "invalid email or password" "Sign in" (signin_page email))
      else fail (wrap "authenticating" e)

  try_signin : String → String → String → Bool → Handler site
  try_signin key email password blocked =
      if blocked
      then flash_page "too many failed attempts — try again later" "Sign in" (signin_page email)
      else do
        user ← attempt (on_store site (authenticate p email password))
        answer_signin key email user

  abbrev pub signin_key : Request → String
  signin_key r = r.real_ip +++ ("|" +++ p.to_lower (trim_space (r.form "email")))

  unfoldable pub signin_submit : Handler site
  unfolding parse_form start_session answer_signin try_signin
  signin_submit = do
    parse_form
    r ← asks site (λ c. c.request)
    blocked ←
        wrapping "checking signin throttle" (on_store site (throttle_blocked p (signin_key r)))
    try_signin (signin_key r) (trim_space (r.form "email")) (r.form "password") blocked

  unfoldable pub password_reset_request_form : Handler site
  password_reset_request_form = render_page site "Reset password" (password_reset_request_page "")

  enqueue_reset : Result User → Handler site
  enqueue_reset (ok user) =
      wrapping "enqueueing reset email"
        (on_store site (insert_standalone (record { email = user.email })))
  enqueue_reset (err e) =
      if is e not_found then pure tt else fail (wrap "looking up reset account" e)

  request_reset : String → String → Bool → Handler site
  request_reset key email blocked =
      if blocked
      then flash_page "too many reset requests — try again later" "Reset password"
          (password_reset_request_page email)
      else do
        wrapping "recording reset request" (on_store site (throttle_fail key))
        user ← attempt (on_store site (by_email p email))
        enqueue_reset user
        flash_redirect "ok" "if that email has an account, a reset link is on the way" "/signin"

  abbrev pub reset_key : Request → String
  reset_key r = "reset|" +++ (r.real_ip +++ ("|" +++ p.to_lower (trim_space (r.form "email"))))

  unfoldable pub password_reset_request : Handler site
  unfolding parse_form enqueue_reset request_reset
  password_reset_request = do
    parse_form
    r ← asks site (λ c. c.request)
    blocked ← wrapping "checking reset throttle" (on_store site (throttle_blocked p (reset_key r)))
    request_reset (reset_key r) (trim_space (r.form "email")) blocked

  abbrev pub dead_link : Handler site
  dead_link =
      flash_redirect "error" "that reset link is no longer valid — request a new one"
        "/password-reset"

  show_confirm : String → Result (Unit {0}) → Handler site
  show_confirm token (ok u) =
      render_page site "Choose a new password" (password_reset_confirm_page token)
  show_confirm token (err e) =
      if is e reset_token_invalid then dead_link else fail (wrap "checking reset token" e)

  unfoldable pub password_reset_confirm_form : Handler site
  unfolding show_confirm
  password_reset_confirm_form = do
    token ← asks site (λ c. c.request.query "token")
    live ← attempt (on_store site (check_reset_token p token))
    show_confirm token live

  answer_reset : String → Result User → Handler site
  answer_reset token (ok user) =
      flash_redirect "ok" "password updated — sign in with your new password" "/signin"
  answer_reset token (err e) =
      if is e reset_token_invalid
      then dead_link
      else if is_empty (password_policy_message e)
      then fail (wrap "resetting password" e)
      else flash_page (password_policy_message e) "Choose a new password"
          (password_reset_confirm_page token)

  unfoldable pub password_reset_confirm : Handler site
  unfolding parse_form answer_reset
  password_reset_confirm = do
    parse_form
    r ← asks site (λ c. c.request)
    done ← attempt (on_store site (in_tx (reset_password p (r.form "token") (r.form "password"))))
    answer_reset (r.form "token") done

  unfoldable pub signout : Handler site
  signout = do
    wrapping "destroying session" (try_session site site.destroy)
    safe_redirect site "/signin"

  -- The route of / runs it under RequireUser.
  unfoldable pub home : Handler site
  home = require_signin site (λ user. render_page site "Home" (home_page user.name))
