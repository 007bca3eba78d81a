-- ===== src/Web/Handlers/Signin.antt =====
-- Signing in.
use go_bootstrap.Prelude.{
  ℕ, suc, String, ◌≡◌, refl, ap, Bool, true, false, Option, none, some, [], ◌∷◌, eq_refl, leb,
  nat_eq, keep, if◌then◌else◌,
}
use go_bootstrap.Prelude.Text.{trim_space}
use go_bootstrap.Errors.{Error, ok}
use go_bootstrap.Store.{User, Store}
use go_bootstrap.Platform.{Platform}
use go_bootstrap.Db.Queries.{exec_ok}
use go_bootstrap.Auth.Users.{password_epoch}
use go_bootstrap.Auth.Users.Signin.{matching, compared, called, right_lem}
use go_bootstrap.Web.Context.{redirect, html, Response, LayoutData, Page, signin_page, Site, Ctx}
use go_bootstrap.Web.Throttle.{throttle_limit, throttle_reset, clear_attempts}
use go_bootstrap.Web.Throttle.Window.{recent, IsQuiet, recent-clear, throttle_blocked_lem}
use go_bootstrap.Web.Access.Guards.{IsSignedIn}
use go_bootstrap.Web.Flash.{set_flash, take_flash}
use go_bootstrap.Web.Render.{write_page, render_page}
use go_bootstrap.Web.Secure.{safe_redirect, safe_redirect_path}
use go_bootstrap.Web.Handlers.{
  parse_form, start_session, answer_signin, try_signin, flash_page, signin_key, signin_submit,
}

module _ (site : Site) where
  write_page-keeps :
      (rendered : Option Error) (layout : LayoutData) (body : Page) (c : Ctx site)
      → site.render layout body ≡ rendered
      → (response : Option Response) × ((write_page site layout body c).1
          ≡ record c { response = response })
  unfolding write_page
  write_page-keeps none layout body c h = (some (html 200 layout body), rw (write_page, h) refl)
  write_page-keeps (some e) layout body c h = (c.response, rw (write_page, h) refl)

  -- A page changes the response and takes the flash, whether it renders or not.
  render_page-keeps :
      (title : String) (body : Page) (c : Ctx site)
      → (response : Option Response) × ((render_page site title body c).1 ≡ record c {
        response = response;
        session =
            site.remove "flash_key" (site.remove "flash_msg" (site.remove "flash_kind" c.session));
      })
  unfolding render_page take_flash
  render_page-keeps title body c = write_page-keeps (site.render _ body) _ body _ refl

  flash_page-keeps :
      (p : Platform) (msg title : String) (body : Page) (c : Ctx site)
      → let r = flash_page site p msg title body c in
        (r.1.store ≡ c.store)
        × (r.1.user ≡ c.user)
        × (site.get_int "user_id" r.1.session ≡ site.get_int "user_id" c.session)
  unfolding flash_page set_flash
  flash_page-keeps p msg title body c =
      let (response, kept) = render_page-keeps title body (set_flash site "error" msg c).1 in
      rw kept (refl, refl, simp (site.get_int-remove, site.get_int-put_string))

module _ (site : Site) (p : Platform) (c : Ctx site) where
  -- the attempts of the request's key that count
  abbrev pub tried : ℕ
  tried = recent (signin_key site p c.request) c.store.db_now c.store.tables.attempts

  begins :
      (blocked : Bool)
      → c.request.form_error ≡ none
      → IsQuiet c.store
      → leb throttle_limit tried ≡ blocked
      → signin_submit site p c
        ≡ try_signin site p
            (signin_key site p c.request)
            (trim_space (c.request.form "email"))
            (c.request.form "password")
            blocked
            (record c { store = called c.store })
  unfolding signin_submit parse_form
  begins blocked parsed q h =
      rw (parsed, throttle_blocked_lem p (signin_key site p c.request) c.store q, h)

  -- A key with five attempts in the window is refused: where no call fails, the answer is the page
  -- with the flash, whatever the password is, and beside the answer only a call is counted: no
  -- password is compared, no table changes, and the session holds the user's id that it held.
  pub signin_submit_blocked :
      c.request.form_error ≡ none
      → IsQuiet c.store
      → leb throttle_limit tried ≡ true
      → let r = signin_submit site p c in
        (r
          ≡ flash_page site p "too many failed attempts — try again later" "Sign in"
              (signin_page (trim_space (c.request.form "email")))
              (record c { store = called c.store }))
        × (r.1.store ≡ called c.store)
        × (r.1.user ≡ c.user)
        × (site.get_int "user_id" r.1.session ≡ site.get_int "user_id" c.session)
  unfolding try_signin
  signin_submit_blocked parsed q h =
      let shown = begins true parsed q h in
      let (store, user, id) =
        flash_page-keeps site p "too many failed attempts — try again later" "Sign in"
          (signin_page (trim_space (c.request.form "email")))
          (record c { store = called c.store }) in
      (shown, rw shown store, rw shown user, rw shown id)

  -- the session behind a signin
  abbrev stamped : User → site.Session
  stamped user =
      site.put_string "password_epoch" (password_epoch p user)
        (site.put_int "user_id" user.id (site.renew_token c.session).1)

  -- the store behind it
  abbrev cleared : Store
  cleared = record c.store {
    tables = (clear_attempts (signin_key site p c.request) c.store.db_now c.store.tables).1;
    calls = suc (suc (suc (suc c.store.calls)));
    compares = suc c.store.compares;
  }

  signed :
      (user : User)
      → c.request.form_error ≡ none
      → IsQuiet c.store
      → leb throttle_limit tried ≡ false
      → matching p (trim_space (c.request.form "email")) c.store ≡ user ∷ []
      → p.compare_hash (c.request.form "password") user.password_hash ≡ ok true
      → (site.renew_token c.session).0 ≡ ok tt
      → signin_submit site p c
        ≡ safe_redirect site
            (site.get_string "after_signin" (stamped user))
            (record c { store = cleared; session = site.remove "after_signin" (stamped user) })
  unfolding try_signin answer_signin start_session throttle_reset
  signed user parsed q h found fits renewed =
      let checked =
        right_lem p (trim_space (c.request.form "email")) (c.request.form "password")
          (called c.store) user
          (record {
            lookup = q.all (suc c.store.calls);
            slot = ap (λ f. f.at_call) (q.all (suc (suc c.store.calls)));
          })
          found fits in
      rw (
        begins false parsed q h,
        checked,
        exec_ok (clear_attempts (signin_key site p c.request)) (compared (called c.store))
            (ap (λ f. f.at_call) (q.all (suc (suc (suc c.store.calls))))),
        renewed,
      )

  -- A signin that is not blocked, for the only user that the email has and with a password that fits,
  -- succeeds where no call fails and the session can be renewed: the session is one that LoadUser
  -- takes for that user's, the answer goes to the path from which the user was sent to sign in if
  -- that path is on this site and else to the front page, the key has no attempts any more, and one
  -- password was compared.
  pub signin_submit-IsSignedIn :
      (user : User)
      → c.request.form_error ≡ none
      → IsQuiet c.store
      → leb throttle_limit tried ≡ false
      → matching p (trim_space (c.request.form "email")) c.store ≡ user ∷ []
      → p.compare_hash (c.request.form "password") user.password_hash ≡ ok true
      → (site.renew_token c.session).0 ≡ ok tt
      → keep (λ u. nat_eq u.id user.id) c.store.tables.users ≡ user ∷ []
      → let r = signin_submit site p c in
        let path = site.get_string "after_signin" c.session in
        (r.0 ≡ ok tt)
        × IsSignedIn site p r.1 user
        × (r.1.response ≡ some (redirect 303 (if safe_redirect_path path then path else "/")))
        × (recent (signin_key site p c.request) r.1.store.db_now r.1.store.tables.attempts ≡ 0)
        × (r.1.store.compares ≡ suc c.store.compares)
  unfolding safe_redirect clear_attempts
  signin_submit-IsSignedIn user parsed q h found fits renewed row =
      let id : site.get_int "user_id" (site.remove "after_signin" (stamped user)) ≡ user.id =
        simp (site.get_int-remove, site.get_int-put_string, site.get_int-put_int) in
      rw (signed user parsed q h found fits renewed) (
        refl,
        record {
          row = rw id row;
          epoch = simp (site.get_string-remove, site.get_string-put_string);
        },
        simp (site.get_string-put_string, site.get_string-put_int, site.get_string-renew_token),
        rw (
          recent-clear (signin_key site p c.request) (signin_key site p c.request) c.store.db_now
              c.store.tables.attempts,
          eq_refl (signin_key site p c.request),
        ),
        refl,
      )
