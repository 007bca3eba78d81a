-- ===== src/Web/Router/Examples.antt =====
-- A POST from another origin at a concrete site.
use go_bootstrap.Prelude.{◌≡◌, ◌⊎◌, refl, true, false, none, some, is_some, inl}
use go_bootstrap.Errors.{Error, ok, http}
use go_bootstrap.Exec.{pure, fail}
use go_bootstrap.Store.Demo.{demo_store}
use go_bootstrap.Platform.Demo.{demo}
use go_bootstrap.Web.Context.{Response, plain, Ctx, respond}
use go_bootstrap.Web.Context.Demo.{demo_site, demo_session, demo_request, demo_ctx}
use go_bootstrap.Web.Secure.{is_same_origin_post, request_scheme}
use go_bootstrap.Web.Secure.Origin.{Trusted, Trusted-complete}
use go_bootstrap.Web.Failure.{status_of}
use go_bootstrap.Web.Failure.Disclosure.{response_status}
use go_bootstrap.Web.Router.{Outside, serve}
use go_bootstrap.Web.Answers.{Answers, fail-Answered}
use go_bootstrap.Web.Router.Answering.{serve-responds}
use go_bootstrap.Auth.Users.Identity.{accounts}
use go_bootstrap.Web.Router.Keeping.{is_reset}
use go_bootstrap.Web.Router.Accounts.{LeavesAlone, serve-keeps_accounts}
use go_bootstrap.Web.Router.Gate.{serve-untrusted}

abbrev demo_outside : Outside demo_site
demo_outside = record {
  no_nonce = none;
  too_large = λ r. none;
  assets = pure tt;
  ping = none;
  unrouted = pure tt;
  describe = λ e. "detail";
  dev_mode = false;
  prod_mode = true;
}

-- a signin that a page of another site posts
abbrev forged_ctx : Ctx demo_site
forged_ctx =
    demo_ctx demo_store (demo_session "" 1 "hash:correct horse")
      (demo_request "https://evil.example" "ada@example.com" "correct horse")

forged : is_same_origin_post demo_site forged_ctx.request ≡ false
unfolding is_same_origin_post request_scheme
forged = refl

forged_distrust : ¬ Trusted demo_site forged_ctx.request
forged_distrust trust = cc (forged, Trusted-complete demo_site forged_ctx.request trust)

serve-untrusted_example :
    ((serve demo_site demo demo_outside forged_ctx).0 ≡ ok tt)
    × ((serve demo_site demo demo_outside forged_ctx).1.store ≡ demo_store)
    × ((serve demo_site demo demo_outside forged_ctx).1.session ≡ forged_ctx.session)
    × ((serve demo_site demo demo_outside forged_ctx).1.user ≡ none)
    × ((e : Error) × (response : Response) × ((serve demo_site demo demo_outside
            forged_ctx).1.response
          ≡ some response)
        × (response_status response ≡ status_of demo_site e))
serve-untrusted_example =
    serve-untrusted demo_site demo demo_outside forged_ctx forged_distrust refl

-- echo's answer to a path without a route
abbrev open_outside : Outside demo_site
open_outside = record demo_outside {
  assets = respond demo_site (plain 200 "css");
  unrouted = fail (http 404 "Not Found");
}

-- what each of the third parties does, they answer
assets-Answers : Answers open_outside.assets
assets-Answers c = inl refl

unrouted-Answers : Answers open_outside.unrouted
unrouted-Answers c = fail-Answered _ c

serve-responds_example :
    ((serve demo_site demo open_outside forged_ctx).0 ≡ ok tt)
    × (is_some (serve demo_site demo open_outside forged_ctx).1.response ≡ true)
serve-responds_example =
    serve-responds demo_site demo open_outside assets-Answers unrouted-Answers forged_ctx

-- neither of the two touches the tables or the request
assets-LeavesAlone : LeavesAlone demo_site open_outside.assets
assets-LeavesAlone = record { tables-eq = λ c. refl; request-eq = λ c. refl }

unrouted-LeavesAlone : LeavesAlone demo_site open_outside.unrouted
unrouted-LeavesAlone = record { tables-eq = λ c. refl; request-eq = λ c. refl }

serve-keeps_accounts_example :
    (accounts (serve demo_site demo open_outside forged_ctx).1.store.tables.users
      ≡ accounts forged_ctx.store.tables.users)
    × ((is_reset forged_ctx.request ≡ true)
        ⊎ ((serve demo_site demo open_outside forged_ctx).1.store.tables.users
            ≡ forged_ctx.store.tables.users))
serve-keeps_accounts_example =
    serve-keeps_accounts demo_site demo open_outside assets-LeavesAlone unrouted-LeavesAlone
      forged_ctx
