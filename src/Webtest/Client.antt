-- ===== src/Webtest/Client.antt =====
-- webtest/client.go: a client that keeps cookies between its requests. The parsing of a target and of a
-- form (httptest, net/url) and the app that serves a request are parameters; header names are in canonical
-- form, and a header that is not there reads as the empty text. Go's map of cookies is an association list
-- without two entries of one name.

pub mod Jar
pub mod Gate
use go_bootstrap.Prelude.{
  String, Bool, not, Option, none, some, List, [], ◌∷◌, keep, is_some, ◌==◌, if◌then◌else◌,
}
use go_bootstrap.Prelude.Text.{is_empty}
use go_bootstrap.Web.Context.{Request}

-- http.Cookie, with whether its MaxAge is negative
pub record Cookie : Type 0 where
  pub name : String
  pub value : String
  pub is_deleted : Bool

abbrev pub Form : Type 0
Form = List (String × String)

-- What stands around the client: net/http makes a request of a method, a target and a form, and an app
-- answers a request with its cookies by cookies that it sets, and changes.
pub record World : Type 1 where
  pub App : Type 0
  pub new_request : String → String → Option Form → Request
  pub serve : Request → List Cookie → App → List Cookie × App

unfoldable pub set_header : String → String → (String → String) → String → String
set_header name value header k = if name == k then value else header k

abbrev no_headers : String → String
no_headers k = ""

-- the headers of a test, in the order in which the loop meets them
unfoldable pub override : List (String × String) → (String → String) → String → String
override [] header = header
override ((k, v) ∷ headers) header =
    override headers (if is_empty v then set_header k "" header else set_header k v header)

unfoldable pub default_headers : Option Form → String → String
default_headers form = set_header "Sec-Fetch-Site" "same-origin" (
    if is_some form
    then set_header "Content-Type" "application/x-www-form-urlencoded" no_headers
    else no_headers)

abbrev pub without_cookie : String → List Cookie → List Cookie
without_cookie name jar = keep (λ c. not (c.name == name)) jar

-- one round of the loop over the cookies of a response
unfoldable pub keep_cookie : Cookie → List Cookie → List Cookie
keep_cookie c jar =
    if c.is_deleted then without_cookie c.name jar else c ∷ without_cookie c.name jar

unfoldable pub keep_cookies : List Cookie → List Cookie → List Cookie
keep_cookies [] jar = jar
keep_cookies (c ∷ cs) jar = keep_cookies cs (keep_cookie c jar)

module _ (w : World) where
  unfoldable pub request_of : String → String → Option Form → List (String × String) → Request
  request_of method path form headers = record (w.new_request method path form) {
    header = override headers (default_headers form);
  }

  -- Do: the cookies that the app sets, and the jar and the app behind the request
  unfoldable pub do_request :
      String
      → String
      → Option Form
      → List (String × String)
      → List Cookie × w.App
      → List Cookie × (List Cookie × w.App)
  do_request method path form headers (jar, app) =
      let (set, app') = w.serve (request_of method path form headers) jar app in
      (set, (keep_cookies set jar, app'))

  unfoldable pub get : String → List Cookie × w.App → List Cookie × (List Cookie × w.App)
  get path s = do_request "GET" path none [] s

  unfoldable pub post_form :
      String → Form → List Cookie × w.App → List Cookie × (List Cookie × w.App)
  post_form path form s = do_request "POST" path (some form) [] s
