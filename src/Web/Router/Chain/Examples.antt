-- ===== src/Web/Router/Chain/Examples.antt =====
-- The chain around a request for /health.
use go_bootstrap.Prelude.{◌≡◌, refl, true, false, none, some, []}
use go_bootstrap.Errors.{http}
use go_bootstrap.Exec.{fail}
use go_bootstrap.Store.Demo.{demo_store}
use go_bootstrap.Platform.Demo.{demo}
use go_bootstrap.Web.Context.{plain, Request, respond}
use go_bootstrap.Web.Context.Demo.{demo_site, demo_session, demo_request, demo_ctx}
use go_bootstrap.Web.Failure.Disclosure.{response_status}
use go_bootstrap.Web.Tracing.{Instruments, Traced}
use go_bootstrap.Web.Secure.{same_origin_post, is_same_origin_post}
use go_bootstrap.Web.Access.{load_user}
use go_bootstrap.Web.Router.{Outside, route, serve}
use go_bootstrap.Web.Router.Chain.{serve_traced}
use go_bootstrap.Web.Router.Chain.Spans.{serve_traced-serve}
use go_bootstrap.Web.Router.Chain.Telling.{IsTold, serve_traced-IsTold}

abbrev demo_outside : Outside demo_site
demo_outside = record {
  no_nonce = none;
  too_large = λ r. none;
  assets = respond demo_site (plain 200 "css");
  ping = none;
  unrouted = fail (http 404 "Not Found");
  describe = λ e. "detail";
  dev_mode = false;
  prod_mode = true;
}

abbrev demo_instruments : Instruments
demo_instruments = record {
  extract = λ r. none;
  route_path = λ r. r.path;
  resolve_status = λ response e. elim response [ none ↦ 200 | some r ↦ response_status r ];
  resolve_status-some = λ response e. refl;
}

abbrev health_request : Request
health_request = record (demo_request "" "" "") { method = "GET"; path = "/health" }

abbrev health : Traced demo_site
health = record {
  ctx = demo_ctx demo_store (demo_session "" 0 "") health_request;
  response_id = "";
  span = none;
  ended = [];
  lines = [];
}

healthy : (serve demo_site demo demo_outside health.ctx).1.response ≡ some (plain 200 "A-OK!")
unfolding serve same_origin_post is_same_origin_post load_user route
healthy = refl

serve_traced-serve_example :
    ((serve_traced demo_site demo demo_outside demo_instruments true health).0
      ≡ (serve demo_site demo demo_outside health.ctx).0)
    × ((serve_traced demo_site demo demo_outside demo_instruments true health).1.ctx
        ≡ (serve demo_site demo demo_outside health.ctx).1)
serve_traced-serve_example =
    serve_traced-serve demo_site demo demo_outside demo_instruments true health

serve_traced-IsTold_example :
    IsTold demo_site demo_instruments 200 health
      (serve_traced demo_site demo demo_outside demo_instruments true health).1
serve_traced-IsTold_example =
    serve_traced-IsTold demo_site demo demo_outside demo_instruments true health (plain 200 "A-OK!")
      refl refl healthy
