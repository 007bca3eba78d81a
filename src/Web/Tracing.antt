-- ===== src/Web/Tracing.antt =====
-- web/tracing.go, and what web/router.go writes on the span of a request: a span is opened in front of
-- the handlers, gets the id and the status of the request, and is ended on every way out. OpenTelemetry
-- is what it is told; echo's route of a request, the status that echo resolves, the propagator and the
-- request id are parameters.
use go_bootstrap.Prelude.{ℕ, String, Option, none, some, List, ◌∷◌, ◌≡◌, leb, if◌then◌else◌}
use go_bootstrap.Prelude.Text.{◌+++◌, is_empty}
use go_bootstrap.Errors.{Error, Result, ok, err}
use go_bootstrap.Exec.{Exec}
use go_bootstrap.Web.Context.{Response, Request, Site, Ctx, Handler}
use go_bootstrap.Web.Failure.Disclosure.{response_status}

-- What is asked of echo and of OpenTelemetry.
pub record Instruments : Type 0 where
  -- the span that the headers of a request name as its parent
  pub extract : Request → Option String
  -- c.Path(): the pattern of the route
  pub route_path : Request → String
  -- echo.ResolveResponseStatus: the status of a response that is written, whatever the error is
  pub resolve_status : Option Response → Option Error → ℕ
  pub resolve_status-some :
      (response : Response) (e : Option Error)
      → resolve_status (some response) e ≡ response_status response

pub record Span : Type 0 where
  pub parent : Option String
  pub name : String
  pub method : String
  pub route : String
  pub url_path : String
  pub client_address : String
  pub request_id : Option String
  pub status : Option ℕ
  pub recorded : Option Error
  -- the description of the status codes.Error
  pub failed : Option String

-- a line of the request log: of the level info, or an error
pub data RequestLine : Type 0 where
  served : (message : String) (status : ℕ) (request_id : String) → RequestLine
  request_error : (uri : String) (status : ℕ) (e : Error) (request_id : String) → RequestLine

-- The context of a handler, with what is recorded of it.
pub record Traced (site : Site) : Type 0 where
  pub ctx : Ctx site
  -- the X-Request-Id of the response, empty where there is none
  pub response_id : String
  -- the span in the context of the request
  pub span : Option Span
  -- the spans that were ended, the last first
  pub ended : List Span
  pub lines : List RequestLine

abbrev pub error_of : Result (Unit {0}) → Option Error
error_of (ok u) = none
error_of (err e) = some e

module _ (site : Site) (i : Instruments) where
  abbrev pub TracedHandler : Type 0
  TracedHandler = Exec (Traced site) (Unit {0})

  unfoldable pub start_span : Request → Span
  start_span r = record {
    parent = i.extract r;
    name = r.method +++ (" " +++ i.route_path r);
    method = r.method;
    route = i.route_path r;
    url_path = r.path;
    client_address = r.real_ip;
    request_id = none;
    status = none;
    recorded = none;
    failed = none;
  }

  -- what is set on the span behind the handlers
  unfoldable pub close_span : ℕ → Result (Unit {0}) → Span → Span
  close_span status r span = record span {
    status = some status;
    recorded = error_of r;
    failed = if leb 500 status then some (site.status_text status) else none;
  }

  -- span.End
  unfoldable pub end_span : Option Span → Traced site → Traced site
  end_span none t = t
  end_span (some span) t = record t { span = some span; ended = span ∷ t.ended }

  unfoldable pub close_current : ℕ → Result (Unit {0}) → Option Span → Option Span
  unfolding close_span
  close_current status r none = none
  close_current status r (some span) = some (close_span status r span)

  unfoldable pub traced_behind : Result (Unit {0}) × Traced site → Result (Unit {0}) × Traced site
  unfolding close_current end_span
  traced_behind (r, t) =
      (r, end_span (close_current (i.resolve_status t.ctx.response (error_of r)) r t.span) t)

  unfoldable pub tracing : TracedHandler → TracedHandler
  unfolding start_span traced_behind
  tracing next t = traced_behind (next (record t { span = some (start_span t.ctx.request) }))

  unfoldable pub tag_span : String → Option Span → Option Span
  tag_span rid none = none
  tag_span rid (some span) =
      some (if is_empty rid then span else record span { request_id = some rid })

  unfoldable pub request_id_on_span : TracedHandler → TracedHandler
  unfolding tag_span
  request_id_on_span next t = next (record t { span = tag_span t.response_id t.span })

  -- middleware.RequestID
  unfoldable pub with_request_id : TracedHandler → TracedHandler
  with_request_id next t = next (record t { response_id = site.request_id t.ctx.request })

  -- a handler, which neither reads nor writes what is recorded
  unfoldable pub untraced : Handler site → TracedHandler
  untraced handler t = ((handler t.ctx).0, record t { ctx = (handler t.ctx).1 })
