-- ===== src/Web/Examples/Revoked.antt =====
-- A session of ada's behind the reset of her password.
use go_bootstrap.Prelude.{◌≡◌, ◌⊎◌, refl, none}
use go_bootstrap.Errors.{ok}
use go_bootstrap.Store.{User, Store}
use go_bootstrap.Store.Demo.{ada, demo_store}
use go_bootstrap.Platform.Demo.{demo}
use go_bootstrap.Auth.Users.{validate_password}
use go_bootstrap.Auth.Reset.{reset_password, is_live, hash_reset_token}
use go_bootstrap.Web.Context.{redirect, Ctx, Handler, respond}
use go_bootstrap.Web.Context.Demo.{demo_site, demo_session, demo_request, demo_ctx}
use go_bootstrap.Web.Access.{load_user}
use go_bootstrap.Web.Access.Revocation.{load_user-reset_password}

abbrev front_page : Handler demo_site
front_page = respond demo_site (redirect 303 "/")

abbrev ada_reset : User
ada_reset = record ada { password_hash = "hash:battery staple"; updated_at = 1000 }

abbrev reset_store : Store
reset_store = record demo_store {
  tables = (reset_password demo "secret" "battery staple" demo_store).1.tables;
}

-- the session is stamped with the password that ada had
abbrev old_session : Ctx demo_site
old_session = demo_ctx reset_store (demo_session "/" 1 "hash:correct horse") (demo_request "" "" "")

reset_works : (reset_password demo "secret" "battery staple" demo_store).0 ≡ ok ada_reset
unfolding reset_password validate_password go_bootstrap.Auth.Reset.live_reset_token
    go_bootstrap.Db.find_exactly_one go_bootstrap.Store.query go_bootstrap.Auth.Reset.live_tokens
    is_live hash_reset_token go_bootstrap.Auth.Users.hash_password go_bootstrap.Db.update
    go_bootstrap.Db.exec go_bootstrap.Auth.Reset.set_password go_bootstrap.Auth.Reset.retire_tokens
    go_bootstrap.Auth.Users.by_id go_bootstrap.Auth.Users.users_by_id
reset_works = refl

-- what the session is asked for
abbrev admin_page : Handler demo_site
admin_page = respond demo_site (redirect 303 "/admin")

load_user-reset_password_example :
    ((c' : Ctx demo_site) × (load_user demo_site demo admin_page old_session ≡ admin_page c')
      × (c'.user ≡ none))
    ⊎ (load_user demo_site demo admin_page old_session
        ≡ load_user demo_site demo front_page old_session)
load_user-reset_password_example =
    load_user-reset_password demo_site demo "secret" "battery staple" "hash:battery staple"
      demo_store ada_reset ada admin_page front_page old_session reset_works refl refl
      (λ same. absurd (cc same)) refl refl refl refl
