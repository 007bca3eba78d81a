-- ===== src/Webtest/Request.antt =====
-- webtest/path.go and webtest/request.go: a request to one handler, and what a test learns from it. JSON,
-- the encoding of a query and the handler are parameters. A Fatalf ends the test; an Errorf marks it as
-- failed and goes on. Log lines are not modelled.
pub mod Passing
use go_bootstrap.Prelude.{
  ℕ, String, Option, none, some, List, [], ◌∷◌, map, nat_eq, ◌==◌, not, keep, if◌then◌else◌,
}
use go_bootstrap.Prelude.Text.{◌+++◌, join}
use go_bootstrap.Errors.{Error, Result, ok, err}

-- The parameters are a map: a list in the order in which its range goes.
pub record PathState : Type 0 where
  pub uri : String
  pub params : List (String × String)

unfoldable pub path_of : List String → PathState
path_of fragments = record { uri = "/" +++ join "/" fragments; params = [] }

unfoldable pub path_param : String → String → PathState → PathState
path_param key value ps = record ps {
  params = (key, value) ∷ keep (λ (k, v). not (k == key)) ps.params;
}

unfoldable pub routed_state : PathState → List String × List String
routed_state ps = (map (λ (k, v). k) ps.params, map (λ (k, v). v) ps.params)

-- `query` is what query.Encode returns
unfoldable pub set_query : String → PathState → PathState
set_query query ps = record ps { uri = ps.uri +++ ("?" +++ query) }

-- The request that the handler gets: a body has the type of JSON.
pub record HandlerRequest : Type 0 where
  pub method : String
  pub path : String
  pub content_type : String
  pub body : String
  pub path_values : List (String × String)

-- what a handler returns and what it has written
pub record Recorded : Type 0 where
  pub result : Result (Unit {0})
  pub code : ℕ
  pub body : String

pub data Failure : Type 0 where
  marshal_failed unmarshal_failed : Error → Failure
  handler_failed : (path : String) → Error → Failure
  wrong_status : (wanted got : ℕ) → (body : String) → Failure

-- The test ends with its failures, or goes on with the response.
pub data Outcome (T : Type 0) : Type 0 where
  fatal : List Failure → Outcome T
  response : List Failure → T → Outcome T

-- values[i] = echo.PathValue{pn[i], pv[i]}
unfoldable pub path_values : List String → List String → List (String × String)
path_values [] values = []
path_values (n ∷ names) [] = []
path_values (n ∷ names) (v ∷ values) = (n, v) ∷ path_values names values

pub record AppRequest (Body : Type 0) : Type 0 where
  pub path : PathState
  pub method : String
  pub body : Option Body
  pub response_code : ℕ

module _ {Body T : Type 0} (marshal : Body → Result String) (unmarshal : String → Result T) where
  handler_failures : String → Result (Unit {0}) → List Failure
  handler_failures path (ok u) = []
  handler_failures path (err e) = handler_failed path e ∷ []

  decoded : List Failure → Result T → Outcome T
  decoded failures (ok v) = response failures v
  decoded failures (err e) = fatal (unmarshal_failed e ∷ failures)

  judged : AppRequest Body → Recorded → Outcome T
  unfolding decoded handler_failures
  judged a r =
      if nat_eq r.code a.response_code
      then decoded (handler_failures a.path.uri r.result) (unmarshal r.body)
      else fatal (wrong_status a.response_code r.code r.body ∷ handler_failures a.path.uri r.result)

  handled_request : AppRequest Body → String → String → HandlerRequest
  handled_request a content_type body = record {
    method = a.method;
    path = a.path.uri;
    content_type = content_type;
    body = body;
    path_values = path_values (routed_state a.path).0 (routed_state a.path).1;
  }

  with_body : AppRequest Body → (HandlerRequest → Recorded) → Result String → Outcome T
  unfolding judged handled_request
  with_body a handler (err e) = fatal (marshal_failed e ∷ [])
  with_body a handler (ok body) = judged a (handler (handled_request a "application/json" body))

  -- Request
  unfoldable pub request : AppRequest Body → (HandlerRequest → Recorded) → Outcome T
  unfolding with_body
  request a handler = elim a.body [
    | none ↦ judged a (handler (handled_request a "" ""))
    | some b ↦ with_body a handler (marshal b)
  ]
