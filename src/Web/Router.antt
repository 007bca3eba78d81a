-- ===== src/Web/Router.antt =====
-- web/router.go and web/handlers_design.go: the routes, and the middleware around them in the order in
-- which it is put on. The request id, the spans, the request log and the recovery of panics do not
-- change what a handler does and are left out; the session is loaded. The body limit, the static
-- files, the ping of the pool and echo's answer to a path without a route are parameters.
pub mod Gate
pub mod Answering
pub mod Keeping
pub mod Accounts
pub mod Chain
mod Examples
use go_bootstrap.Prelude.{String, Bool, ◌||◌, Option, none, some, ◌==◌, if◌then◌else◌}
use text.Mathlib.Text.{starts_with}
use go_bootstrap.Errors.{Error, http, wrap, Result, ok, err}
use go_bootstrap.Exec.{Exec, fail}
use go_bootstrap.Platform.{Platform}
use go_bootstrap.Web.Context.{design_page, plain, Request, Site, Ctx, Handler, respond}
use go_bootstrap.Web.Render.{render_page}
use go_bootstrap.Web.Secure.{same_origin_post}
use go_bootstrap.Web.Access.{load_user, require_user}
use go_bootstrap.Web.Handlers.{
  signin_form, signin_submit, signout, password_reset_request_form, password_reset_request,
  password_reset_confirm_form, password_reset_confirm, home,
}
use go_bootstrap.Web.Failure.{error_handler}

-- What stands around the routes.
pub record Outside (site : Site) : Type 0 where
  -- the failure of the draw of the nonce in SecureHeaders
  pub no_nonce : Option Error
  pub too_large : Request → Option Error
  pub assets : Handler site
  pub ping : Option Error
  pub unrouted : Handler site
  pub describe : Error → String
  pub dev_mode : Bool
  pub prod_mode : Bool

module _ (site : Site) (p : Platform) (o : Outside site) where
  unfoldable pub design_showcase : Handler site
  design_showcase =
      if o.prod_mode
      then fail (http 404 "Not Found")
      else render_page site "Design system" design_page

  ready : Handler site
  ready = elim o.ping [
    | some e ↦ fail (http 503 "database unreachable")
    | none ↦ respond site (plain 200 "ready")
  ]

  get_route : String → Handler site
  unfolding design_showcase ready
  get_route path =
      if starts_with path "/public/" || starts_with path "/ui/"
      then o.assets
      else if path == "/health"
      then respond site (plain 200 "A-OK!")
      else if path == "/ready"
      then ready
      else if path == "/design"
      then design_showcase
      else if path == "/signin"
      then signin_form site p
      else if path == "/password-reset"
      then password_reset_request_form site p
      else if path == "/password-reset/confirm"
      then password_reset_confirm_form site p
      else if path == "/"
      then require_user site (home site p)
      else o.unrouted

  post_route : String → Handler site
  post_route path =
      if path == "/signin"
      then signin_submit site p
      else if path == "/signout"
      then signout site p
      else if path == "/password-reset"
      then password_reset_request site p
      else if path == "/password-reset/confirm"
      then password_reset_confirm site p
      else o.unrouted

  unfoldable pub route : Handler site
  unfolding get_route post_route
  route c =
      if c.request.method == "GET"
      then get_route c.request.path c
      else if c.request.method == "POST"
      then post_route c.request.path c
      else o.unrouted c

  -- SecureHeaders; the headers are `secure_headers`, and no handler reads them.
  secured : {S : Type 0} → Exec S (Unit {0}) → Exec S (Unit {0})
  secured next c = elim o.no_nonce [
    | some e ↦ (err (wrap "generating csp nonce" e), c)
    | none ↦ next c
  ]

  -- `request_of` finds the request in the state of the handler.
  body_limit : {S : Type 0} → (S → Request) → Exec S (Unit {0}) → Exec S (Unit {0})
  body_limit request_of next c = elim (o.too_large (request_of c)) [
    | some e ↦ (err e, c)
    | none ↦ next c
  ]

  finished : Result (Unit {0}) × Ctx site → Result (Unit {0}) × Ctx site
  finished (ok u, c) = (ok u, c)
  finished (err e, c) = error_handler site o.describe o.dev_mode e c

  -- The request log hands an error to errorHandler, whose response ends the request.
  unfoldable pub serve : Handler site
  unfolding secured body_limit finished
  serve c =
      finished
        (secured (body_limit (λ c. c.request) (same_origin_post site (load_user site p route))) c)
