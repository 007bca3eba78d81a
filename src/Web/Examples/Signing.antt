-- ===== src/Web/Examples/Signing.antt =====
-- Signing in and asking for a reset at a concrete site.
use go_bootstrap.Prelude.{◌≡◌, refl, true, false, none, some, [], ◌∷◌, leb, if◌then◌else◌}
use go_bootstrap.Prelude.Text.{trim_space}
use go_bootstrap.Errors.{ok}
use go_bootstrap.Store.{Attempt}
use go_bootstrap.Store.Demo.{ada, demo_tables, demo_store}
use go_bootstrap.Platform.Demo.{demo}
use go_bootstrap.Auth.Users.{same_email}
use go_bootstrap.Auth.Users.Signin.{called, matching}
use go_bootstrap.Web.Context.{redirect, signin_page, Ctx}
use go_bootstrap.Web.Context.Demo.{demo_site, demo_session, demo_request, demo_ctx}
use go_bootstrap.Web.Throttle.{throttle_limit, is_recent}
use go_bootstrap.Web.Throttle.Window.{recent}
use go_bootstrap.Web.Secure.{safe_redirect_path}
use go_bootstrap.Web.Access.Guards.{IsSignedIn}
use go_bootstrap.Web.Handlers.{flash_page, signin_key, signin_submit, password_reset_request}
use go_bootstrap.Web.Handlers.Signin.{tried, signin_submit_blocked, signin_submit-IsSignedIn}
use go_bootstrap.Web.Handlers.Reset.{IsAsked, recorded, flashed, password_reset_request_lem}

abbrev signing_ctx : Ctx demo_site
signing_ctx =
    demo_ctx demo_store (demo_session "/back" 0 "")
      (demo_request "https://app.example" "ada@example.com" "correct horse")

abbrev tried_once : Attempt
tried_once = record { key = "10.0.0.1|ada@example.com"; attempted_at = 900 }

-- the same request behind five failed signins
abbrev blocked_ctx : Ctx demo_site
blocked_ctx = record signing_ctx {
  store = record demo_store {
    tables = record demo_tables {
      attempts = tried_once ∷ tried_once ∷ tried_once ∷ tried_once ∷ tried_once ∷ [];
    };
  };
}

too_many : leb throttle_limit (tried demo_site demo blocked_ctx) ≡ true
unfolding is_recent trim_space
too_many = refl

few : leb throttle_limit (tried demo_site demo signing_ctx) ≡ false
unfolding is_recent trim_space
few = refl

ada_matches : matching demo (trim_space "ada@example.com") demo_store ≡ ada ∷ []
unfolding same_email trim_space
ada_matches = refl

signin_submit_blocked_example :
    (signin_submit demo_site demo blocked_ctx
      ≡ flash_page demo_site demo "too many failed attempts — try again later" "Sign in"
          (signin_page (trim_space "ada@example.com"))
          (record blocked_ctx { store = called blocked_ctx.store }))
    × ((signin_submit demo_site demo blocked_ctx).1.store ≡ called blocked_ctx.store)
    × ((signin_submit demo_site demo blocked_ctx).1.user ≡ none)
    × (demo_site.get_int "user_id" (signin_submit demo_site demo blocked_ctx).1.session ≡ 0)
signin_submit_blocked_example =
    signin_submit_blocked demo_site demo blocked_ctx refl (record { all = λ n. refl }) too_many

signin_submit_example :
    ((signin_submit demo_site demo signing_ctx).0 ≡ ok tt)
    × IsSignedIn demo_site demo (signin_submit demo_site demo signing_ctx).1 ada
    × ((signin_submit demo_site demo signing_ctx).1.response
        ≡ some (redirect 303 (if safe_redirect_path "/back" then "/back" else "/")))
    × (recent
          (signin_key demo_site demo signing_ctx.request)
          (signin_submit demo_site demo signing_ctx).1.store.db_now
          (signin_submit demo_site demo signing_ctx).1.store.tables.attempts
        ≡ 0)
    × ((signin_submit demo_site demo signing_ctx).1.store.compares ≡ 1)
signin_submit_example =
    signin_submit-IsSignedIn demo_site demo signing_ctx ada refl (record { all = λ n. refl }) few
      ada_matches refl refl refl

ada-IsAsked : IsAsked demo_site demo signing_ctx (some ada)
unfolding is_recent trim_space
ada-IsAsked = record {
  parsed = refl;
  quiet = record { all = λ n. refl };
  unblocked = refl;
  there = ada_matches;
}

password_reset_request_example :
    ((password_reset_request demo_site demo signing_ctx).0 ≡ ok tt)
    × ((password_reset_request demo_site demo signing_ctx).1.response
        ≡ some (redirect 303 "/signin"))
    × ((password_reset_request demo_site demo signing_ctx).1.session
        ≡ flashed demo_site demo signing_ctx "ok"
            "if that email has an account, a reset link is on the way")
    × ((password_reset_request demo_site demo signing_ctx).1.captured ≡ [])
    × ((password_reset_request demo_site demo signing_ctx).1.store.tables
        ≡ record (recorded demo_site demo signing_ctx) {
          jobs = record { email = "ada@example.com" } ∷ [];
        })
password_reset_request_example =
    password_reset_request_lem demo_site demo signing_ctx (some ada) ada-IsAsked
