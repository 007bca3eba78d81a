-- ===== src/Web/Examples/Failing.antt =====
-- Failures at a concrete site.
use go_bootstrap.Prelude.{
  ℕ, String, ◌≤◌, ◌⊎◌, leb, if◌then◌else◌, [], ◌∷◌, ◌≡◌, refl, false, Option, none, some,
}
use go_bootstrap.Errors.{Error, sentinel, wrap, not_found, too_many_rows, ok}
use go_bootstrap.Store.Demo.{demo_store}
use go_bootstrap.Web.Context.{Response, Ctx}
use go_bootstrap.Web.Context.Demo.{demo_site, demo_session, demo_request, demo_ctx}
use go_bootstrap.Web.Failure.{error_handler, FormResult}
use go_bootstrap.Web.Failure.Disclosure.{response_status, error_handler_lem}

abbrev failing_ctx : Ctx demo_site
failing_ctx = demo_ctx demo_store (demo_session "" 0 "") (demo_request "" "" "")

abbrev described : Error → String
described e = "detail"

abbrev internal : Error → Option String
internal e = none

abbrev lost : Error
lost = wrap "loading" (sentinel not_found)

abbrev doubled : Error
doubled = sentinel too_many_rows

error_handler_example :
    (response : Response) × (status : ℕ) × (((demo_site.status_code lost ≡ 0) × (status ≡ 500))
      ⊎ ((1 ≤ demo_site.status_code lost) × (status ≡ demo_site.status_code lost)))
    × (response_status response ≡ status)
    × (error_handler demo_site described false lost failing_ctx ≡ (
      ok tt,
      record failing_ctx {
        response = some response;
        captured =
            if leb 500 status
            then record {
              error = lost;
              request = failing_ctx.request;
              request_id = "id";
              user = none;
            }
              ∷ []
            else [];
      },
    ))
error_handler_example = error_handler_lem demo_site described false lost failing_ctx refl

abbrev finished : Error → FormResult
finished e = record {
  failure = some e;
  error_flash_key = "email";
  ok_message = "saved";
  redirect_to = "/profile";
}
