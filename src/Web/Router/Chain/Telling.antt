-- ===== src/Web/Router/Chain/Telling.antt =====
-- The span of a request, from its start to its end.
use go_bootstrap.Prelude.{ℕ, ◌≡◌, refl, ◌∙◌, Bool, true, false, none, some, leb, ◌∷◌, if◌then◌else◌}
use go_bootstrap.Prelude.Text.{is_empty, ◌+++◌}
use go_bootstrap.Platform.{Platform}
use go_bootstrap.Web.Context.{Response, Site}
use go_bootstrap.Web.Failure.Disclosure.{response_status}
use go_bootstrap.Web.Tracing.{Instruments, Span, Traced, start_span}
use go_bootstrap.Web.Router.{Outside, route, serve}
use go_bootstrap.Web.Router.Chain.{serve_traced}
use go_bootstrap.Web.Router.Chain.Spans.{IsClosed, request_span, serve_traced-Closed}

-- One span more is ended, and it tells of a request and of the status of its answer.
pub record IsTold (site : Site) (i : Instruments) (status : ℕ) (before after : Traced site)
    : Type 0 where
  pub span : Span
  pub ended-eq : after.ended ≡ span ∷ before.ended
  pub parent-eq : span.parent ≡ i.extract before.ctx.request
  pub name-eq : span.name ≡ before.ctx.request.method +++ (" " +++ i.route_path before.ctx.request)
  pub method-eq : span.method ≡ before.ctx.request.method
  pub route-eq : span.route ≡ i.route_path before.ctx.request
  pub url_path-eq : span.url_path ≡ before.ctx.request.path
  pub client_address-eq : span.client_address ≡ before.ctx.request.real_ip
  pub request_id-eq : span.request_id ≡ (
      if is_empty (site.request_id before.ctx.request)
      then none
      else some (site.request_id before.ctx.request))
  pub status-eq : span.status ≡ some status
  pub failed-eq : span.failed ≡ (if leb 500 status then some (site.status_text status) else none)

module _ (site : Site) (p : Platform) (o : Outside site) (i : Instruments) (hands_on : Bool) where
  -- what the span of a request is opened with
  Opened : Traced site → Span → Type 0
  Opened t span =
      (span.parent ≡ i.extract t.ctx.request)
      × (span.name ≡ t.ctx.request.method +++ (" " +++ i.route_path t.ctx.request))
      × (span.method ≡ t.ctx.request.method)
      × (span.route ≡ i.route_path t.ctx.request)
      × (span.url_path ≡ t.ctx.request.path)
      × (span.client_address ≡ t.ctx.request.real_ip)
      × (span.request_id ≡ (
          if is_empty (site.request_id t.ctx.request)
          then none
          else some (site.request_id t.ctx.request)))

  request_span-Opened :
      (t : Traced site) (unnamed : Bool)
      → is_empty (site.request_id t.ctx.request) ≡ unnamed
      → Opened t (request_span site p o i hands_on t)
  unfolding start_span Opened
  request_span-Opened t true h = rw h (refl, refl, refl, refl, refl, refl, refl)
  request_span-Opened t false h = rw h (refl, refl, refl, refl, refl, refl, refl)

  told :
      (t : Traced site) (status : ℕ) (after : Traced site)
      → IsClosed site status (request_span site p o i hands_on t) t after
      → IsTold site i status t after
  unfolding Opened
  told t status after c =
      let (parent, name, method, route, url_path, address, rid) = c.rest-eq in
      let (parent', name', method', route', url_path', address', rid') =
        request_span-Opened t (is_empty (site.request_id t.ctx.request)) refl in
      record {
        span = c.span;
        ended-eq = c.ended-eq;
        parent-eq = parent ∙ parent';
        name-eq = name ∙ name';
        method-eq = method ∙ method';
        route-eq = route ∙ route';
        url_path-eq = url_path ∙ url_path';
        client_address-eq = address ∙ address';
        request_id-eq = rid ∙ rid';
        status-eq = c.status-eq;
        failed-eq = c.failed-eq;
      }

  -- The span tells what happened: of a request that passes the drawing of the nonce and the limit of its
  -- body, and is answered, one span is ended. It is named by the method and the route, has the parent that
  -- the headers name, the method, the route, the path and the client's address, the request id unless that
  -- is empty, and the status of the answer, also where an error handler wrote it, and it is marked as failed
  -- exactly when that status is at least 500.
  pub serve_traced-IsTold :
      (t : Traced site) (response : Response)
      → o.no_nonce ≡ none
      → o.too_large t.ctx.request ≡ none
      → (serve site p o t.ctx).1.response ≡ some response
      → IsTold site i (response_status response) t (serve_traced site p o i hands_on t).1
  serve_traced-IsTold t response drawn small h =
      told t (response_status response) (serve_traced site p o i hands_on t).1
        (serve_traced-Closed site p o i hands_on t response drawn small h)
