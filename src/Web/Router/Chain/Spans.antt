-- ===== src/Web/Router/Chain/Spans.antt =====
-- The chain with its instruments beside the chain without them, and the span behind the handlers.
use go_bootstrap.Prelude.{
  ℕ, subst, ◌≡◌, refl, ap, ◌∙◌, sym, Bool, true, false, Option, none, some, is_some, leb, ◌∷◌,
  Option-cases, inl, inr, if◌then◌else◌,
}
use go_bootstrap.Prelude.Text.{is_empty}
use go_bootstrap.Errors.{Error, Result, ok, err}
use go_bootstrap.Exec.{Exec}
use go_bootstrap.Platform.{Platform}
use go_bootstrap.Web.Context.{Response, Request, Site, Ctx}
use go_bootstrap.Web.Secure.{same_origin_post}
use go_bootstrap.Web.Access.{load_user}
use go_bootstrap.Web.Failure.{error_handler}
use go_bootstrap.Web.Failure.Disclosure.{response_status}
use go_bootstrap.Web.Failure.Answering.{error_handler-responds}
use go_bootstrap.Web.Tracing.{
  Instruments, Span, Traced, error_of, tracing, request_id_on_span, with_request_id, untraced,
  close_span, close_current, end_span, traced_behind, tag_span, start_span,
}
use go_bootstrap.Web.Router.{Outside, route, secured, body_limit, finished, serve}
use go_bootstrap.Web.Router.Chain.{
  answer_error, with_line, logged_behind, request_log, finished_traced, inner, serve_traced,
}

-- How a span looks behind the handlers, with the rest as at its start.
pub record IsClosed (site : Site) (status : ℕ) (s : Span) (before after : Traced site)
    : Type 0 where
  pub span : Span
  pub ended-eq : after.ended ≡ span ∷ before.ended
  pub status-eq : span.status ≡ some status
  pub failed-eq : span.failed ≡ (if leb 500 status then some (site.status_text status) else none)
  pub rest-eq :
      (span.parent ≡ s.parent)
      × (span.name ≡ s.name)
      × (span.method ≡ s.method)
      × (span.route ≡ s.route)
      × (span.url_path ≡ s.url_path)
      × (span.client_address ≡ s.client_address)
      × (span.request_id ≡ s.request_id)

module _ (site : Site) (p : Platform) (o : Outside site) (i : Instruments) (hands_on : Bool) where
  committed-id :
      (response : Option Response) (e : Error) (c : Ctx site)
      → c.response ≡ response
      → is_some response ≡ true
      → error_handler site o.describe o.dev_mode e c ≡ (ok tt, c)
  unfolding error_handler
  committed-id none e c h k = cc
  committed-id (some r) e c h k = simp (error_handler, h)

  -- Behind errorHandler a second call of it changes nothing.
  error_handler-error_handler :
      (e f : Error) (c : Ctx site)
      → let c' = (error_handler site o.describe o.dev_mode e c).1 in
        error_handler site o.describe o.dev_mode f c' ≡ (ok tt, c')
  error_handler-error_handler e f c =
      committed-id _ f _ refl (error_handler-responds site o.describe o.dev_mode e c).1

  -- how the request ends, for the result of the handlers behind the log
  abbrev Ends : Result (Unit {0}) × Ctx site → Result (Unit {0}) × Traced site → Type 0
  Ends plain traced =
      ((finished_traced site p o i hands_on traced).0 ≡ (finished site p o plain).0)
      × ((finished_traced site p o i hands_on traced).1.ctx ≡ (finished site p o plain).1)

  error_handler-ok :
      (e : Error) (c : Ctx site) → ok tt ≡ (error_handler site o.describe o.dev_mode e c).0
  error_handler-ok e c = sym (error_handler-responds site o.describe o.dev_mode e c).0

  end_span-ctx : (span : Option Span) (t : Traced site) → (end_span site i span t).ctx ≡ t.ctx
  unfolding end_span
  end_span-ctx none t = refl
  end_span-ctx (some span) t = refl

  handled-again :
      (e : Error) (t : Traced site) (c : Ctx site)
      → t.ctx ≡ (error_handler site o.describe o.dev_mode e c).1
      → (answer_error site p o i hands_on e t).ctx
        ≡ (error_handler site o.describe o.dev_mode e c).1
  unfolding answer_error
  handled-again e t c h = rw (h, error_handler-error_handler e e c) refl

  behind-Ends :
      (hands : Bool) (r : Result (Unit {0})) (t : Traced site)
      → hands_on ≡ hands
      → Ends (r, t.ctx) (traced_behind site i (logged_behind site p o i hands_on (r, t)))
  unfolding finished finished_traced traced_behind logged_behind with_line answer_error
  behind-Ends hands (ok u) t h = (refl, end_span-ctx _ _)
  behind-Ends true (err e) t h = rw h (
    error_handler-ok e t.ctx,
    handled-again e
        (traced_behind site i
          (err e, with_line site p o i hands_on (err e) (answer_error site p o i hands_on e t))).1
        t.ctx (end_span-ctx _ _),
  )
  behind-Ends false (err e) t h = rw h (error_handler-ok e t.ctx, end_span-ctx _ _)

  ended-Closed :
      (r : Result (Unit {0})) (s : Span) (response : Response) (before t : Traced site)
      → t.span ≡ some s
      → t.ended ≡ before.ended
      → t.ctx.response ≡ some response
      → IsClosed site (response_status response) s before (traced_behind site i (r, t)).1
  unfolding traced_behind close_current close_span end_span
  ended-Closed r s response before t h k l = record {
    span = close_span site i (response_status response) r s;
    ended-eq = rw (h, l, i.resolve_status-some response (error_of r)) (rw k refl);
    status-eq = refl;
    failed-eq = refl;
    rest-eq = (refl, refl, refl, refl, refl, refl, refl);
  }

  -- errorHandler records nothing.
  handled-Closed :
      {status : ℕ} {s : Span} {before t : Traced site} (e : Error)
      → IsClosed site status s before t
      → IsClosed site status s before (answer_error site p o i hands_on e t)
  unfolding answer_error
  handled-Closed e closed' = record {
    span = closed'.span;
    ended-eq = closed'.ended-eq;
    status-eq = closed'.status-eq;
    failed-eq = closed'.failed-eq;
    rest-eq = closed'.rest-eq;
  }

  behind-Closed :
      (hands : Bool) (r : Result (Unit {0})) (s : Span) (response : Response)
      (before t : Traced site)
      → hands_on ≡ hands
      → t.span ≡ some s
      → t.ended ≡ before.ended
      → (finished site p o (r, t.ctx)).1.response ≡ some response
      → IsClosed site
          (response_status response)
          s
          before
          (finished_traced site p o i hands_on
            (traced_behind site i (logged_behind site p o i hands_on (r, t)))).1
  unfolding finished finished_traced logged_behind with_line answer_error traced_behind
  behind-Closed hands (ok u) s response before t e h k l =
      ended-Closed (ok u) s response before (with_line site p o i hands_on (ok u) t) h k l
  behind-Closed false (err e) s response before t kept h k l = rw kept (
      ended-Closed (ok tt) s response before
        (with_line site p o i hands_on (err e) (answer_error site p o i hands_on e t)) h k l)
  behind-Closed true (err e) s response before t kept h k l = rw kept (
      handled-Closed e (
        ended-Closed (err e) s response before
          (with_line site p o i hands_on (err e) (answer_error site p o i hands_on e t)) h k l))

  passed :
      {S : Type 0} (request_of : S → Request) (next : Exec S (Unit {0})) (x : S)
      → o.no_nonce ≡ none
      → o.too_large (request_of x) ≡ none
      → secured site p o (body_limit site p o request_of next) x ≡ next x
  unfolding secured body_limit
  passed request_of next x drawn small = simp (secured, body_limit, drawn, small)

  -- the span of a request while it is open
  abbrev pub request_span : Traced site → Span
  request_span t =
      if is_empty (site.request_id t.ctx.request)
      then start_span site i t.ctx.request
      else record (start_span site i t.ctx.request) {
        request_id = some (site.request_id t.ctx.request);
      }

  -- the state in front of the request log
  abbrev entered : Traced site → Traced site
  entered t = record t { response_id = site.request_id t.ctx.request; span = some (request_span t) }

  abbrev answered : Traced site → Result (Unit {0}) × Ctx site
  answered t = same_origin_post site (load_user site p (route site p o)) t.ctx

  serve_traced-behind :
      (t : Traced site)
      → o.no_nonce ≡ none
      → o.too_large t.ctx.request ≡ none
      → (serve_traced site p o i hands_on t
          ≡ finished_traced site p o i hands_on (
              traced_behind site i (
                logged_behind site p o i hands_on
                  ((answered t).0, record (entered t) { ctx = (answered t).1 }))))
        × (serve site p o t.ctx ≡ finished site p o (answered t))
  unfolding serve_traced serve tracing inner with_request_id request_id_on_span request_log untraced
      tag_span
  serve_traced-behind t drawn small = (
    ap (finished_traced site p o i hands_on) (
        passed (λ t. t.ctx.request) (tracing site i (inner site p o i hands_on))
          (record t { response_id = site.request_id t.ctx.request }) drawn small),
    ap (finished site p o) (
        passed (λ c. c.request) (same_origin_post site (load_user site p (route site p o))) t.ctx
          drawn small),
  )

  -- Tracing is transparent: the request id, the span, the recovery and the request log around the
  -- handlers change neither what the chain returns nor the context that it leaves, with the response, the
  -- session, the store and the errors that were reported, whether the request log hands on the error that
  -- it has handled or not.
  pub serve_traced-serve :
      (t : Traced site)
      → ((serve_traced site p o i hands_on t).0 ≡ (serve site p o t.ctx).0)
        × ((serve_traced site p o i hands_on t).1.ctx ≡ (serve site p o t.ctx).1)
  unfolding serve_traced serve secured body_limit with_request_id finished_traced finished
      answer_error
  serve_traced-serve t = elim (Option-cases o.no_nonce) [
    | inr (e, failed) ↦ rw failed (error_handler-ok _ t.ctx, refl)
    | inl drawn ↦ elim (Option-cases (o.too_large t.ctx.request)) [
      | inr (e, large) ↦ rw (drawn, large) (error_handler-ok _ t.ctx, refl)
      | inl small ↦
          let (traced, plain) = serve_traced-behind t drawn small in
          let (same, same_ctx) =
            behind-Ends hands_on (answered t).0 (record (entered t) { ctx = (answered t).1 })
              refl in
          (
            ap (λ r. r.0) traced ∙ (same ∙ ap (λ r. r.0) (sym plain)),
            ap (λ r. r.1.ctx) traced ∙ (same_ctx ∙ ap (λ r. r.1) (sym plain)),
          )
    ]
  ]

  pub serve_traced-Closed :
      (t : Traced site) (response : Response)
      → o.no_nonce ≡ none
      → o.too_large t.ctx.request ≡ none
      → (serve site p o t.ctx).1.response ≡ some response
      → IsClosed site
          (response_status response)
          (request_span t)
          t
          (serve_traced site p o i hands_on t).1
  unfolding tag_span
  serve_traced-Closed t response drawn small h =
      let (traced, plain) = serve_traced-behind t drawn small in
      subst (λ r. IsClosed site (response_status response) (request_span t) t r.1) (sym traced)
        (behind-Closed hands_on (answered t).0 (request_span t) response t
          (record (entered t) { ctx = (answered t).1 }) refl refl refl
          (ap (λ r. r.1.response) (sym plain) ∙ h))
