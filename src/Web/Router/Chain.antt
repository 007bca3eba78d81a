-- ===== src/Web/Router/Chain.antt =====
-- The whole chain of web/router.go, with the request id, the span, the request log and the recovery
-- between the middleware that decides. A handler of this model does not panic, so that the recovery
-- passes on what it gets. The request log is told to handle errors: it hands an error to errorHandler at
-- once, and `hands_on` is whether it also returns it, which echo leaves to its version.
pub mod Spans
pub mod Telling
mod Examples
use go_bootstrap.Prelude.{String, Bool, ◌∷◌, if◌then◌else◌}
use go_bootstrap.Prelude.Text.{◌+++◌}
use go_bootstrap.Errors.{Error, Result, ok, err}
use go_bootstrap.Platform.{Platform}
use go_bootstrap.Web.Context.{Request, Site}
use go_bootstrap.Web.Secure.{same_origin_post}
use go_bootstrap.Web.Access.{load_user}
use go_bootstrap.Web.Failure.{error_handler}
use go_bootstrap.Web.Tracing.{
  Instruments, RequestLine, served, request_error, Traced, TracedHandler, error_of, tracing,
  request_id_on_span, with_request_id, untraced,
}
use go_bootstrap.Web.Router.{Outside, route, secured, body_limit}

module _ (site : Site) (p : Platform) (o : Outside site) (i : Instruments) (hands_on : Bool) where
  -- LogValuesFunc of loggerConfig
  log_values : Result (Unit {0}) → Traced site → RequestLine
  log_values (ok u) t =
      served (t.ctx.request.method +++ (" " +++ t.ctx.request.uri))
        (i.resolve_status t.ctx.response (error_of (ok u))) t.response_id
  log_values (err e) t =
      request_error t.ctx.request.uri (i.resolve_status t.ctx.response (error_of (err e))) e
        t.response_id

  answer_error : Error → Traced site → Traced site
  answer_error e t = record t { ctx = (error_handler site o.describe o.dev_mode e t.ctx).1 }

  with_line : Result (Unit {0}) → Traced site → Traced site
  unfolding log_values
  with_line r t = record t { lines = log_values r t ∷ t.lines }

  logged_behind : Result (Unit {0}) × Traced site → Result (Unit {0}) × Traced site
  unfolding with_line answer_error
  logged_behind (ok u, t) = (ok u, with_line (ok u) t)
  logged_behind (err e, t) =
      (if hands_on then err e else ok tt, with_line (err e) (answer_error e t))

  -- middleware.RequestLoggerWithConfig(loggerConfig())
  unfoldable pub request_log : TracedHandler site i → TracedHandler site i
  unfolding logged_behind
  request_log next t = logged_behind (next t)

  finished_traced : Result (Unit {0}) × Traced site → Result (Unit {0}) × Traced site
  unfolding answer_error
  finished_traced (ok u, t) = (ok u, t)
  finished_traced (err e, t) = (ok tt, answer_error e t)

  -- what stands behind the span
  inner : TracedHandler site i
  inner =
      request_id_on_span site i
        (request_log (untraced site i (same_origin_post site (load_user site p (route site p o)))))

  -- the chain of Router, and echo's call of errorHandler behind it
  unfoldable pub serve_traced : TracedHandler site i
  unfolding inner finished_traced secured body_limit
  serve_traced t = finished_traced (
      with_request_id site i
        (secured site p o (body_limit site p o (λ t. t.ctx.request) (tracing site i inner))) t)
