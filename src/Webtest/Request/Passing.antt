-- ===== src/Webtest/Request/Passing.antt =====
-- What a test knows that goes on without a failure.
use go_bootstrap.Prelude.{
  String, ◌≡◌, refl, sym, ap, ◌∙◌, List, [], ◌∷◌, nat_eq, nat_eq_iff, true, false, Bool-cases,
  Option-cases, inl, inr,
}
use go_bootstrap.Errors.{Result, ok, err}
use go_bootstrap.Webtest.Request.{
  routed_state, HandlerRequest, Recorded, wrong_status, fatal, response, path_values, AppRequest,
  handler_failures, decoded, judged, handled_request, with_body, request,
}

-- The handler sees each parameter of the path under its name.
pub path_values-routed_state :
    (uri : String) (params : List (String × String))
    → let (names, values) = routed_state (record { uri = uri; params = params }) in
      path_values names values ≡ params
unfolding routed_state path_values
path_values-routed_state uri [] = refl
path_values-routed_state uri ((k, v) ∷ params) =
    ap (◌∷◌ (k, v)) (path_values-routed_state uri params)

module _ {Body T : Type 0} (marshal : Body → Result String) (unmarshal : String → Result T) where
  -- The handler has returned no error, and has written the status that the test wants and a body that
  -- reads as the value.
  pub record Passed (a : AppRequest Body) (v : T) (r : Recorded) : Type 0 where
    pub no_error : r.result ≡ ok tt
    pub status : r.code ≡ a.response_code
    pub value : unmarshal r.body ≡ ok v

  decoded-response :
      (path : String) (v : T) (result : Result (Unit {0})) (body : Result T)
      → decoded marshal unmarshal (handler_failures marshal unmarshal path result) body
        ≡ response [] v
      → (result ≡ ok tt) × (body ≡ ok v)
  unfolding decoded handler_failures
  decoded-response path v (ok u) (ok w) h = (refl, cc)
  decoded-response path v (ok u) (err e) h = absurd cc
  decoded-response path v (err d) (ok w) h = absurd cc
  decoded-response path v (err d) (err e) h = absurd cc

  judged-wrong :
      (a : AppRequest Body) (r : Recorded)
      → nat_eq r.code a.response_code ≡ false
      → judged marshal unmarshal a r
        ≡ fatal (
            wrong_status a.response_code r.code r.body
            ∷ handler_failures marshal unmarshal a.path.uri r.result)
  unfolding judged
  judged-wrong a r h = rw (judged, h) refl

  judged-right :
      (a : AppRequest Body) (r : Recorded)
      → nat_eq r.code a.response_code ≡ true
      → judged marshal unmarshal a r
        ≡ decoded marshal unmarshal
            (handler_failures marshal unmarshal a.path.uri r.result)
            (unmarshal r.body)
  unfolding judged
  judged-right a r h = rw (judged, h) refl

  judged-Passed :
      (a : AppRequest Body) (v : T) (r : Recorded)
      → judged marshal unmarshal a r ≡ response [] v
      → Passed a v r
  unfolding judged
  judged-Passed a v r passed = elim (Bool-cases (nat_eq r.code a.response_code)) [
    | inr differs ↦ absurd (cc (passed, judged-wrong a r differs))
    | inl same ↦
        let (no_error, value) =
          decoded-response a.path.uri v r.result (unmarshal r.body)
            (sym (judged-right a r same) ∙ passed) in
        record { no_error = no_error; status = (nat_eq_iff _ _).0 same; value = value }
  ]

  abbrev Sent : AppRequest Body → (HandlerRequest → Recorded) → T → Type 0
  Sent a handler v =
      (sent : HandlerRequest) × (sent.method ≡ a.method)
      × (sent.path ≡ a.path.uri)
      × (sent.path_values ≡ a.path.params)
      × Passed a v (handler sent)

  with_body-Passed :
      (a : AppRequest Body) (handler : HandlerRequest → Recorded) (v : T) (text : Result String)
      → with_body marshal unmarshal a handler text ≡ response [] v
      → Sent a handler v
  unfolding with_body handled_request
  with_body-Passed a handler v (err e) passed = absurd cc
  with_body-Passed a handler v (ok text) passed = (
    handled_request marshal unmarshal a "application/json" text,
    refl,
    refl,
    path_values-routed_state a.path.uri a.path.params,
    judged-Passed a v _ passed,
  )

  -- A test that gets a response from Request and is not marked as failed knows what its handler did: it
  -- was called on a request with the method, the path and the parameters of the path, it has returned no
  -- error, and it has written the wanted status and a body that reads as the response.
  pub request-Passed :
      (a : AppRequest Body) (handler : HandlerRequest → Recorded) (v : T)
      → request marshal unmarshal a handler ≡ response [] v
      → (sent : HandlerRequest) × (sent.method ≡ a.method)
        × (sent.path ≡ a.path.uri)
        × (sent.path_values ≡ a.path.params)
        × Passed a v (handler sent)
  unfolding request with_body handled_request
  request-Passed a handler v passed = elim (Option-cases a.body) [
    | inl bare ↦ (
      handled_request marshal unmarshal a "" "",
      refl,
      refl,
      path_values-routed_state a.path.uri a.path.params,
      judged-Passed a v _ (sym (rw (request, bare) refl) ∙ passed),
    )
    | inr (b, there) ↦
        with_body-Passed a handler v (marshal b) (sym (rw (request, there) refl) ∙ passed)
  ]
