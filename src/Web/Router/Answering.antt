-- ===== src/Web/Router/Answering.antt =====
-- Every request is answered: what is left of an error at the end is answered by the error handler.
use go_bootstrap.Prelude.{
  ◌≡◌, refl, String, true, Option, none, some, is_some, inl, inr, ◌==◌, ◌||◌,
}
use text.Mathlib.Text.{starts_with}
use go_bootstrap.Errors.{Error, Result, ok, err}
use go_bootstrap.Platform.{Platform}
use go_bootstrap.Web.Context.{Site, Ctx}
use go_bootstrap.Web.Answers.{
  Answered, Answers, option-Answered, fail-Answered, if-Answered, test-Answered,
}
use go_bootstrap.Web.Secure.{is_same_origin_post, same_origin_post}
use go_bootstrap.Web.Access.{load_user, require_user}
use go_bootstrap.Web.Access.Answering.{load_user-Answers}
use go_bootstrap.Web.Failure.Answering.{error_handler-responds}
use go_bootstrap.Web.Handlers.Answering
use go_bootstrap.Web.Handlers.{home}
use go_bootstrap.Web.Router.{
  Outside, design_showcase, ready, get_route, post_route, route, secured, body_limit, finished,
  serve,
}

module _ (site : Site) (p : Platform) where
  module _ (o : Outside site) (assets : Answers o.assets) (unrouted : Answers o.unrouted) where
    design_showcase-Answers : Answers (design_showcase site p o)
    unfolding design_showcase
    design_showcase-Answers c =
        if-Answered o.prod_mode _ _ c (fail-Answered _ c) (Answering.render_page-Answers site _ _ c)

    ready-Answers : (ping : Option Error) → o.ping ≡ ping → Answers (ready site p o)
    unfolding ready
    ready-Answers none h c = rw (ready, h) (inl refl)
    ready-Answers (some e) h c = rw (ready, h) (fail-Answered _ c)

    get_route-Answers : (path : String) → Answers (get_route site p o path)
    unfolding get_route require_user
    get_route-Answers path c =
        if-Answered (starts_with path "/public/" || starts_with path "/ui/") _ _ c (assets c) (
          if-Answered (path == "/health") _ _ c (inl refl) (
            if-Answered (path == "/ready") _ _ c (ready-Answers o.ping refl c) (
              if-Answered (path == "/design") _ _ c (design_showcase-Answers c) (
                if-Answered (path == "/signin") _ _ c (Answering.signin_form-Answers site p c) (
                  if-Answered (path == "/password-reset") _ _ c
                    (Answering.password_reset_request_form-Answers site p c)
                    (if-Answered (path == "/password-reset/confirm") _ _ c
                      (Answering.password_reset_confirm_form-Answers site p c)
                      (if-Answered (path == "/") _ _ c
                        (Answering.require_signin-Answers site (λ _. home site p)
                          (λ _. Answering.home-Answers site p) c)
                        (unrouted c))))))))

    post_route-Answers : (path : String) → Answers (post_route site p o path)
    unfolding post_route
    post_route-Answers path c =
        if-Answered (path == "/signin") _ _ c (Answering.signin_submit-Answers site p c) (
          if-Answered (path == "/signout") _ _ c (Answering.signout-Answers site p c) (
            if-Answered (path == "/password-reset") _ _ c
              (Answering.password_reset_request-Answers site p c)
              (if-Answered (path == "/password-reset/confirm") _ _ c
                (Answering.password_reset_confirm-Answers site p c) (unrouted c))))

    route-Answers : Answers (route site p o)
    unfolding route
    route-Answers c =
        test-Answered (c.request.method == "GET") _ _ (get_route-Answers c.request.path c) (
          test-Answered (c.request.method == "POST") _ _ (post_route-Answers c.request.path c)
            (unrouted c))

    chain-Answers : Answers (
        secured site p o (
          body_limit site p o
            (λ c. c.request)
            (same_origin_post site (load_user site p (route site p o)))))
    unfolding secured body_limit same_origin_post
    chain-Answers c =
        option-Answered o.no_nonce _ _ (λ e. fail-Answered _ c)
          (option-Answered (o.too_large c.request) _ _ (λ e. fail-Answered _ c)
            (test-Answered (is_same_origin_post site c.request) _ _
              (load_user-Answers site p _ route-Answers c) (fail-Answered _ c)))

    finished-responds :
        (r : Result (Unit {0}) × Ctx site)
        → Answered r
        → ((finished site p o r).0 ≡ ok tt) × (is_some (finished site p o r).1.response ≡ true)
    unfolding finished
    finished-responds (ok u, c) (inl h) = (refl, h)
    finished-responds (ok u, c) (inr (e, h)) = cc
    finished-responds (err e, c) h = error_handler-responds site o.describe o.dev_mode e c

    -- Every request is answered: where the handlers of the static files and of echo's answer to a path
    -- without a route write a response unless they return an error, the chain of middleware, route and
    -- error handler returns no error and leaves a response, whatever the request, the session and the
    -- store are, and whichever call of the database, the session store or the templates fails.
    pub serve-responds :
        (c : Ctx site)
        → ((serve site p o c).0 ≡ ok tt) × (is_some (serve site p o c).1.response ≡ true)
    unfolding serve
    serve-responds c = finished-responds _ (chain-Answers c)
