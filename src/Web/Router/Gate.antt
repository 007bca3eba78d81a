-- ===== src/Web/Router/Gate.antt =====
-- No untrusted POST reaches a route.
use go_bootstrap.Prelude.{◌≡◌, refl, none, some, inl, inr, Option-cases}
use go_bootstrap.Errors.{Error, http, wrap, ok}
use go_bootstrap.Platform.{Platform}
use go_bootstrap.Web.Context.{Response, Site, Ctx}
use go_bootstrap.Web.Secure.Origin.{Trusted, same_origin_post_lem}
use go_bootstrap.Web.Access.{load_user}
use go_bootstrap.Web.Failure.{status_of, error_handler}
use go_bootstrap.Web.Failure.Disclosure.{response_status, error_handler-answers}
use go_bootstrap.Web.Router.{Outside, route, secured, body_limit, finished, serve}

module _ (site : Site) (p : Platform) (o : Outside site) (c : Ctx site) where
  untrusted-refused :
      ¬ Trusted site c.request
      → (e : Error) × (serve site p o c ≡ error_handler site o.describe o.dev_mode e c)
  unfolding serve
  untrusted-refused distrust =
      elim (same_origin_post_lem site (load_user site p (route site p o)) c) [
        | inl (trust, _) ↦ absurd (distrust trust)
        | inr (_, refused) ↦ elim (Option-cases o.no_nonce) [
          | inr (e, failed) ↦
              (wrap "generating csp nonce" e, rw (serve, secured, failed, finished) refl)
          | inl drawn ↦ elim (Option-cases (o.too_large c.request)) [
            | inl small ↦ (
              http 403 "forbidden",
              rw (serve, secured, drawn, body_limit, small, refused, finished) refl,
            )
            | inr (e, large) ↦ (e, rw (serve, secured, drawn, body_limit, large, finished) refl)
          ]
        ]
      ]

  -- A request that the gate does not trust, whatever its route, with nothing written yet, is answered
  -- with an error's status, and changes neither the store nor the session nor the user in the context.
  pub serve-untrusted :
      ¬ Trusted site c.request
      → c.response ≡ none
      → let r = serve site p o c in
        (r.0 ≡ ok tt)
        × (r.1.store ≡ c.store)
        × (r.1.session ≡ c.session)
        × (r.1.user ≡ c.user)
        × ((e : Error) × (response : Response) × (r.1.response ≡ some response)
            × (response_status response ≡ status_of site e))
  serve-untrusted distrust fresh =
      let (e, refused) = untrusted-refused distrust in
      let (response, status, answered) =
        error_handler-answers site o.describe o.dev_mode e c (status_of site e) refl fresh in
      rw (refused, answered) (refl, refl, refl, refl, (e, response, refl, status))
