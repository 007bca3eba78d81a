-- ===== src/Web/Examples/Guarded.antt =====
-- The gates and the guards at a concrete site.
use go_bootstrap.Prelude.{String, ◌≡◌, ◌⊎◌, refl, true, false, some, ◌==◌, none}
use text.Mathlib.Text.{starts_with}
use go_bootstrap.Errors.{http, err, ok}
use go_bootstrap.Store.Demo.{ada, demo_store}
use go_bootstrap.Platform.Demo.{demo}
use go_bootstrap.Auth.Users.{password_epoch, has_role}
use go_bootstrap.Web.Context.{redirect, Ctx, Handler, respond}
use go_bootstrap.Web.Context.Demo.{demo_site, demo_session, demo_request, demo_ctx}
use go_bootstrap.Web.Flash.{set_keyed_flash, take_flash}
use go_bootstrap.Web.Flash.OneShot.{take_flash-set_keyed_flash}
use go_bootstrap.Web.Secure.{same_origin_post, safe_redirect}
use go_bootstrap.Web.Secure.Origin.{Trusted, same_origin_post_lem, safe_redirect_lem}
use go_bootstrap.Web.Access.{load_user, require_role}
use go_bootstrap.Web.Access.Guards.{IsSignedIn}
use go_bootstrap.Web.Access.Roles.{require_role-load_user}

abbrev admin_page : Handler demo_site
admin_page = respond demo_site (redirect 303 "/admin")

abbrev other_page : Handler demo_site
other_page = respond demo_site (redirect 303 "/other")

-- requests of a session of ada's, stamped with her present password and with another
abbrev ada_ctx : Ctx demo_site
ada_ctx =
    demo_ctx demo_store (demo_session "/back" 1 "hash:correct horse")
      (demo_request "https://app.example" "" "")

abbrev stale_ctx : Ctx demo_site
stale_ctx =
    demo_ctx demo_store (demo_session "/back" 1 "hash:old horse")
      (demo_request "https://evil.example" "" "")

ada-IsSignedIn : IsSignedIn demo_site demo ada_ctx ada
unfolding password_epoch
ada-IsSignedIn = record { row = refl; epoch = refl }

same_origin_post_example :
    (Trusted demo_site ada_ctx.request
      × (same_origin_post demo_site admin_page ada_ctx ≡ admin_page ada_ctx))
    ⊎ ((¬ Trusted demo_site ada_ctx.request)
        × (same_origin_post demo_site admin_page ada_ctx ≡ (err (http 403 "forbidden"), ada_ctx)))
same_origin_post_example = same_origin_post_lem demo_site admin_page ada_ctx

safe_redirect_example :
    (location : String) × ((safe_redirect demo_site "//evil.example" ada_ctx).1.response
      ≡ some (redirect 303 location))
    × (starts_with location "/" ≡ true)
    × (starts_with location "//" ≡ false)
    × (starts_with location "/\\" ≡ false)
    × ((location ≡ "//evil.example")
        ⊎ (starts_with "//evil.example" "/" ≡ false)
        ⊎ (starts_with "//evil.example" "//" ≡ true)
        ⊎ (starts_with "//evil.example" "/\\" ≡ true))
safe_redirect_example = safe_redirect_lem demo_site "//evil.example" ada_ctx

take_flash_example :
    ((take_flash demo_site (set_keyed_flash demo_site "" "email" "taken" ada_ctx).1).0
      ≡ ok (some (record { kind = "ok"; message = "taken"; key = "email" })))
    × ((take_flash demo_site
          (take_flash demo_site (set_keyed_flash demo_site "" "email" "taken" ada_ctx).1).1).0
        ≡ ok none)
take_flash_example = take_flash-set_keyed_flash demo_site "" "email" "taken" ada_ctx refl

require_role_example :
    ((user : _) × (c' : Ctx demo_site) × IsSignedIn demo_site demo ada_ctx user
      × (has_role user "admin" ≡ true)
      × (c'.user ≡ some user)
      × (load_user demo_site demo (require_role demo_site "admin" admin_page) ada_ctx
          ≡ admin_page c'))
    ⊎ (load_user demo_site demo (require_role demo_site "admin" admin_page) ada_ctx
        ≡ load_user demo_site demo (require_role demo_site "admin" other_page) ada_ctx)
require_role_example =
    require_role-load_user demo_site demo "admin" admin_page other_page ada_ctx refl

ada_stale :
    (demo_site.get_string "password_epoch" stale_ctx.session == password_epoch demo ada) ≡ false
unfolding password_epoch
ada_stale = refl
