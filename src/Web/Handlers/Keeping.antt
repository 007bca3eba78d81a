-- ===== src/Web/Handlers/Keeping.antt =====
-- Each handler leaves the users as they are.
use go_bootstrap.Prelude.{
  ◌≡◌, ◌⊎◌, sym, subst, List, refl, ◌∙◌, String, Bool, List, inl, inr, Option-cases,
}
use go_bootstrap.Prelude.Text.{is_empty}
use go_bootstrap.Errors.{
  Error, is, invalid_credentials, not_found, reset_token_invalid, wrap, http_wrap, map_err, Result,
  ok, err,
}
use go_bootstrap.Exec.{continue}
use go_bootstrap.Exec.Keeping.{Keeps, continue-Shows, option-Shows, if-Shows}
use go_bootstrap.Store.{User}
use go_bootstrap.Platform.{Platform}
use go_bootstrap.Db.{in_tx}
use go_bootstrap.Db.Keeping.{in_store, in_tx-Keeps}
use go_bootstrap.Auth.Users.{by_email, authenticate}
use go_bootstrap.Auth.Users.Identity.{seen, by_email-Keeps, authenticate-Keeps}
use go_bootstrap.Auth.Reset.{check_reset_token, reset_password}
use go_bootstrap.Auth.Reset.Keeping.{check_reset_token-Keeps}
use go_bootstrap.Web.Context.{LayoutData, Page, Request, Site, Ctx, Handler}
use go_bootstrap.Web.Throttle.{throttle_blocked, throttle_fail}
use go_bootstrap.Web.Throttle.Keeping.{
  throttle_blocked-Keeps, throttle_fail-Keeps, throttle_reset-Keeps, insert_standalone-Keeps,
}
use go_bootstrap.Web.Flash.{put_flash_key, set_keyed_flash, set_flash, take_flash}
use go_bootstrap.Web.Render.{write_page, render_page}
use go_bootstrap.Web.Secure.{safe_redirect}
use go_bootstrap.Web.Access.{require_signin}
use go_bootstrap.Web.Handlers.{
  password_policy_message, parse_form, signin_key, reset_key, flash_page, flash_redirect,
  signin_form, start_session, answer_signin, try_signin, signin_submit, password_reset_request_form,
  enqueue_reset, request_reset, password_reset_request, show_confirm, password_reset_confirm_form,
  answer_reset, password_reset_confirm, signout, home,
}

-- what a view of the request and of the users shows of the context of a handler
abbrev pub users_in : {V : Type 0} → (Request → List User → V) → (site : Site) → Ctx site → V
users_in view site c = view c.request c.store.tables.users

module _ {V : Type 0} (view : Request → List User → V) (site : Site) where
  abbrev pub KeepsUsers : Handler site → Type 0
  KeepsUsers handler = Keeps (users_in view site) handler

  pub write_page-Keeps :
      (layout : LayoutData) (body : Page) → KeepsUsers (write_page site layout body)
  unfolding write_page
  write_page-Keeps layout body c = elim (Option-cases (site.render layout body)) [
    | inl rendered ↦ rw (write_page, rendered) refl
    | inr (e, broken) ↦ rw (write_page, broken) refl
  ]

  pub render_page-Keeps : (title : String) (body : Page) → KeepsUsers (render_page site title body)
  unfolding render_page take_flash
  render_page-Keeps title body c = write_page-Keeps _ body _

  set_flash-Keeps : (kind msg : String) → KeepsUsers (set_flash site kind msg)
  unfolding set_flash set_keyed_flash put_flash_key
  set_flash-Keeps kind msg c = refl

  flash_page-Keeps :
      (p : Platform) (msg title : String) (body : Page)
      → KeepsUsers (flash_page site p msg title body)
  unfolding flash_page
  flash_page-Keeps p msg title body c =
      continue-Shows (users_in view site) _ _ _ (set_flash-Keeps "error" msg c)
        (λ _. render_page-Keeps title body)

  flash_redirect-Keeps :
      (p : Platform) (kind msg path : String) → KeepsUsers (flash_redirect site p kind msg path)
  unfolding flash_redirect safe_redirect
  flash_redirect-Keeps p kind msg path c =
      continue-Shows (users_in view site) _ _ _ (set_flash-Keeps kind msg c) (λ _ c. refl)

  pub require_signin-Keeps :
      (next : User → Handler site)
      → ((user : User) → KeepsUsers (next user))
      → KeepsUsers (require_signin site next)
  unfolding require_signin safe_redirect
  require_signin-Keeps next h c =
      option-Shows (users_in view site) c.user (λ user. next user c) _ (λ user. h user c) refl

module _ {V : Type 0} (view : Request → List User → V) (site : Site) (p : Platform) where
  parse_form-Keeps : KeepsUsers view site (parse_form site p)
  unfolding parse_form
  parse_form-Keeps c =
      option-Shows (users_in view site) c.request.form_error (λ e. _) (ok tt, c) (λ e. refl) refl

  pub signin_form-Keeps : KeepsUsers view site (signin_form site p)
  unfolding signin_form safe_redirect
  signin_form-Keeps c =
      option-Shows (users_in view site) c.user (λ _. safe_redirect site "/" c) _ (λ _. refl)
        (render_page-Keeps view site _ _ c)

  start_session-Keeps : (user : User) → KeepsUsers view site (start_session site p user)
  unfolding start_session safe_redirect
  start_session-Keeps user c = continue-Shows (users_in view site) _ _ _ refl (λ _ c. refl)

  answer_signin-Keeps :
      (key email : String) (found : Result User)
      → KeepsUsers view site (answer_signin site p key email found)
  unfolding answer_signin
  answer_signin-Keeps key email (ok user) c =
      start_session-Keeps user _ ∙ throttle_reset-Keeps (view c.request) key c.store
  answer_signin-Keeps key email (err e) c =
      if-Shows (users_in view site) (is e invalid_credentials) _ _ c
        (continue-Shows (users_in view site)
          (map_err (wrap "recording failed signin") (throttle_fail key c.store).0) _ _
          (throttle_fail-Keeps (view c.request) key c.store)
          (λ _. flash_page-Keeps view site p _ _ _))
        refl

  try_signin-Keeps :
      (key email password : String) (blocked : Bool)
      → KeepsUsers view site (try_signin site p key email password blocked)
  unfolding try_signin
  try_signin-Keeps key email password blocked c =
      if-Shows (users_in view site) blocked _ _ c (flash_page-Keeps view site p _ _ _ c) (
        answer_signin-Keeps key email (authenticate p email password c.store).0 _
        ∙ authenticate-Keeps (view c.request) p email password c.store)

  pub signin_submit-Keeps : KeepsUsers view site (signin_submit site p)
  unfolding signin_submit
  signin_submit-Keeps c =
      continue-Shows (users_in view site) (parse_form site p c).0 _ _ (parse_form-Keeps c) (λ _ c.
        continue-Shows (users_in view site)
          (map_err (wrap "checking signin throttle")
            (throttle_blocked p (signin_key site p c.request) c.store).0)
          _ _ (throttle_blocked-Keeps (view c.request) p _ c.store) (try_signin-Keeps _ _ _))

  pub password_reset_request_form-Keeps : KeepsUsers view site (password_reset_request_form site p)
  unfolding password_reset_request_form
  password_reset_request_form-Keeps = render_page-Keeps view site _ _

  enqueue_reset-Keeps : (found : Result User) → KeepsUsers view site (enqueue_reset site p found)
  unfolding enqueue_reset
  enqueue_reset-Keeps (ok user) c = insert_standalone-Keeps (view c.request) _ c.store
  enqueue_reset-Keeps (err e) c = if-Shows (users_in view site) (is e not_found) _ _ c refl refl

  request_reset-Keeps :
      (key email : String) (blocked : Bool)
      → KeepsUsers view site (request_reset site p key email blocked)
  unfolding request_reset
  request_reset-Keeps key email blocked c =
      if-Shows (users_in view site) blocked _ _ c (flash_page-Keeps view site p _ _ _ c) (
        continue-Shows (users_in view site)
          (map_err (wrap "recording reset request") (throttle_fail key c.store).0) _ _
          (throttle_fail-Keeps (view c.request) key c.store)
          (λ _ c.
            continue-Shows (users_in view site)
              (enqueue_reset site p (by_email p email c.store).0 _).0 _ _
              (enqueue_reset-Keeps (by_email p email c.store).0 _
                ∙ by_email-Keeps (view c.request) p email c.store)
              (λ _. flash_redirect-Keeps view site p _ _ _)))

  pub password_reset_request-Keeps : KeepsUsers view site (password_reset_request site p)
  unfolding password_reset_request
  password_reset_request-Keeps c =
      continue-Shows (users_in view site) (parse_form site p c).0 _ _ (parse_form-Keeps c) (λ _ c.
        continue-Shows (users_in view site)
          (map_err (wrap "checking reset throttle")
            (throttle_blocked p (reset_key site p c.request) c.store).0)
          _ _ (throttle_blocked-Keeps (view c.request) p _ c.store) (request_reset-Keeps _ _))

  show_confirm-Keeps :
      (token : String) (live : Result (Unit {0}))
      → KeepsUsers view site (show_confirm site p token live)
  unfolding show_confirm
  show_confirm-Keeps token (ok u) c = render_page-Keeps view site _ _ c
  show_confirm-Keeps token (err e) c =
      if-Shows (users_in view site) (is e reset_token_invalid) _ _ c
        (flash_redirect-Keeps view site p _ _ _ c) refl

  pub password_reset_confirm_form-Keeps : KeepsUsers view site (password_reset_confirm_form site p)
  unfolding password_reset_confirm_form
  password_reset_confirm_form-Keeps c =
      show_confirm-Keeps (c.request.query "token")
        (check_reset_token p (c.request.query "token") c.store).0 _
      ∙ check_reset_token-Keeps (view c.request) p (c.request.query "token") c.store

  answer_reset-Keeps :
      (token : String) (done : Result User) → KeepsUsers view site (answer_reset site p token done)
  unfolding answer_reset
  answer_reset-Keeps token (ok user) c = flash_redirect-Keeps view site p _ _ _ c
  answer_reset-Keeps token (err e) c =
      if-Shows (users_in view site) (is e reset_token_invalid) _ _ c
        (flash_redirect-Keeps view site p _ _ _ c)
        (if-Shows (users_in view site) (is_empty (password_policy_message e)) _ _ c refl
          (flash_page-Keeps view site p _ _ _ c))

  parse_form-cases :
      (c : Ctx site)
      → (parse_form site p c ≡ (ok tt, c)) ⊎ ((e : Error) × (parse_form site p c ≡ (err e, c)))
  unfolding parse_form
  parse_form-cases c = elim (Option-cases c.request.form_error) [
    | inl formed ↦ inl (simp (parse_form, formed))
    | inr (e, broken) ↦ inr (http_wrap 400 "malformed form" e, simp (parse_form, broken))
  ]

  -- password_reset_confirm behind its form
  confirm_formed : Handler site
  confirm_formed c =
      let done =
        in_tx (reset_password p (c.request.form "token") (c.request.form "password")) c.store in
      answer_reset site p (c.request.form "token") done.0 (record c { store = done.1 })

  confirm_formed-Keeps :
      (c : Ctx site)
      → ((token password : String)
          → Keeps (in_store (seen (view c.request))) (reset_password p token password))
      → users_in view site (confirm_formed c).1 ≡ users_in view site c
  unfolding confirm_formed
  confirm_formed-Keeps c resets =
      let reset = reset_password p (c.request.form "token") (c.request.form "password") in
      answer_reset-Keeps (c.request.form "token") (in_tx reset c.store).0
        (record c { store = (in_tx reset c.store).1 })
      ∙ in_tx-Keeps (seen (view c.request)) reset
          (resets (c.request.form "token") (c.request.form "password")) c.store

  -- What a reset leaves is shown by the view as before.
  pub password_reset_confirm-Keeps :
      (c : Ctx site)
      → ((token password : String)
          → Keeps (in_store (seen (view c.request))) (reset_password p token password))
      → users_in view site (password_reset_confirm site p c).1 ≡ users_in view site c
  unfolding password_reset_confirm confirm_formed
  password_reset_confirm-Keeps c resets =
      let same : Result (Unit {0}) × Ctx site → Type 0 =
        λ r. users_in view site (continue r.0 (λ _. confirm_formed) r.1).1 ≡ users_in view site c in
      elim (parse_form-cases c) [
        | inr (e, broken) ↦ subst same (sym broken) refl
        | inl formed ↦ subst same (sym formed) (confirm_formed-Keeps c resets)
      ]

  pub signout-Keeps : KeepsUsers view site (signout site p)
  unfolding signout safe_redirect
  signout-Keeps c = continue-Shows (users_in view site) _ _ _ refl (λ _ c. refl)

  pub home-Keeps : KeepsUsers view site (home site p)
  unfolding home
  home-Keeps = require_signin-Keeps view site _ (λ user. render_page-Keeps view site _ _)
