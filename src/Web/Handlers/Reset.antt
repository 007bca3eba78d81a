-- ===== src/Web/Handlers/Reset.antt =====
-- The request of a password reset does not tell whether the email has an account.
use go_bootstrap.Prelude.{
  ℕ, suc, String, ◌≡◌, refl, ap, false, Option, none, some, List, [], ◌∷◌, ◌++◌, leb, append-nil,
}
use go_bootstrap.Prelude.Text.{trim_space}
use go_bootstrap.Errors.{ok}
use go_bootstrap.Store.{User, PasswordResetEmailArgs, Tables, Store}
use go_bootstrap.Platform.{Platform}
use go_bootstrap.Db.Queries.{only, exec_ok}
use go_bootstrap.Auth.Users.Signin.{matching, by_email_lem, called}
use go_bootstrap.Jobs.{add_job, insert_standalone}
use go_bootstrap.Web.Context.{redirect, Site, Ctx}
use go_bootstrap.Web.Throttle.{throttle_limit}
use go_bootstrap.Web.Throttle.Window.{
  recent, IsQuiet, failed, throttle_blocked_lem, throttle_fail-failed,
}
use go_bootstrap.Web.Flash.{set_flash}
use go_bootstrap.Web.Secure.{safe_redirect, safe_redirect_path}
use go_bootstrap.Web.Handlers.{
  parse_form, flash_redirect, enqueue_reset, request_reset, reset_key, password_reset_request,
}

-- the users that an email has, and the mails that they get
abbrev pub account : Option User → List User
account none = []
account (some user) = user ∷ []

abbrev pub mails : Option User → List PasswordResetEmailArgs
mails none = []
mails (some user) = record { email = user.email } ∷ []

module _ (site : Site) (p : Platform) where
  -- the store behind a request that is not blocked
  abbrev counted : String → Store → Store
  counted key s = record s {
    tables = record s.tables { attempts = failed key s };
    calls = suc (suc s.calls);
  }

  -- the context behind it, with the jobs `jobs` and the calls `n` of the store
  abbrev redirected : String → List PasswordResetEmailArgs → ℕ → Ctx site → Ctx site
  redirected key jobs n c = record c {
    store = record c.store {
      tables = record c.store.tables { attempts = failed key c.store; jobs = jobs };
      calls = n;
    };
    session = site.remove "flash_key" (
        site.put_string "flash_msg" "if that email has an account, a reset link is on the way"
          (site.put_string "flash_kind" "ok" c.session));
    response = some (redirect 303 "/signin");
  }

  unknown_lem :
      (key email : String) (c : Ctx site)
      → IsQuiet c.store
      → matching p email c.store ≡ []
      → request_reset site p key email false c
        ≡ (ok tt, redirected key c.store.tables.jobs (suc (suc (suc c.store.calls))) c)
  unfolding request_reset enqueue_reset only flash_redirect set_flash safe_redirect
      safe_redirect_path
  unknown_lem key email c q h = rw (
    throttle_fail-failed key c.store q,
    by_email_lem p email (counted key c.store) (q.all (suc (suc c.store.calls))),
    h,
  )

  known_lem :
      (key email : String) (user : User) (c : Ctx site)
      → IsQuiet c.store
      → matching p email c.store ≡ user ∷ []
      → request_reset site p key email false c ≡ (
        ok tt,
        redirected key
            (c.store.tables.jobs ++ record { email = user.email } ∷ [])
            (suc (suc (suc (suc c.store.calls))))
            c,
      )
  unfolding request_reset enqueue_reset only flash_redirect set_flash safe_redirect
      safe_redirect_path insert_standalone add_job
  known_lem key email user c q h = rw (
    throttle_fail-failed key c.store q,
    by_email_lem p email (counted key c.store) (q.all (suc (suc c.store.calls))),
    h,
    exec_ok (add_job (record { email = user.email })) (called (counted key c.store))
        (ap (λ f. f.at_call) (q.all (suc (suc (suc c.store.calls))))),
  )

module _ (site : Site) (p : Platform) (c : Ctx site) where
  -- A request whose form parses, whose key is not blocked, and whose calls do not fail; its email has
  -- the account `found`.
  pub record IsAsked (found : Option User) : Type 0 where
    pub parsed : c.request.form_error ≡ none
    pub quiet : IsQuiet c.store
    pub unblocked :
        leb throttle_limit
          (recent (reset_key site p c.request) c.store.db_now c.store.tables.attempts)
        ≡ false
    pub there : matching p (trim_space (c.request.form "email")) c.store ≡ account found

  -- what a flash leaves in the session
  abbrev pub flashed : String → String → site.Session
  flashed kind msg =
      site.remove "flash_key"
        (site.put_string "flash_msg" msg (site.put_string "flash_kind" kind c.session))

  abbrev asked : Store
  asked = called c.store

  abbrev pub recorded : Tables
  recorded = record c.store.tables { attempts = failed (reset_key site p c.request) c.store }

  begins :
      (found : Option User)
      → IsAsked found
      → password_reset_request site p c
        ≡ request_reset site p
            (reset_key site p c.request)
            (trim_space (c.request.form "email"))
            false
            (record c { store = called c.store })
  unfolding password_reset_request parse_form
  begins found h =
      rw
        (h.parsed, throttle_blocked_lem p (reset_key site p c.request) c.store h.quiet, h.unblocked)

  -- A request that is not blocked answers with the same redirect and the same flash whether its
  -- email has an account or not, and records the attempt; the one trace of the account is the job
  -- that mails it.
  pub password_reset_request_lem :
      (found : Option User)
      → IsAsked found
      → let r = password_reset_request site p c in
        (r.0 ≡ ok tt)
        × (r.1.response ≡ some (redirect 303 "/signin"))
        × (r.1.session ≡ flashed "ok" "if that email has an account, a reset link is on the way")
        × (r.1.captured ≡ c.captured)
        × (r.1.store.tables ≡ record recorded { jobs = c.store.tables.jobs ++ mails found })
  password_reset_request_lem none h =
      rw
        (
          begins none h,
          unknown_lem site p (reset_key site p c.request) (trim_space (c.request.form "email"))
              (record c { store = called c.store }) (record { all = h.quiet.all }) h.there,
        )
        (refl, refl, refl, refl, rw (append-nil c.store.tables.jobs))
  password_reset_request_lem (some user) h =
      rw
        (
          begins (some user) h,
          known_lem site p (reset_key site p c.request) (trim_space (c.request.form "email")) user
              (record c { store = called c.store }) (record { all = h.quiet.all }) h.there,
        )
        (refl, refl, refl, refl, refl)
