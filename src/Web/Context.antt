-- ===== src/Web/Context.antt =====
-- What a handler of package web works on: the request, the session, the user that LoadUser attached,
-- the response, and the shared store. scs, echo, templ and net/url are third parties or Go's own
-- tables: they are the parameters of `Site`, with what their documentation promises.
pub mod Demo
use go_bootstrap.Prelude.{
  ℕ, String, Bool, ◌≡◌, ◌≢◌, Option, none, some, List, [], ◌∷◌, ◌++◌, ◌==◌, if◌then◌else◌,
}
use go_bootstrap.Errors.{Error, Result, ok, err}
use go_bootstrap.Exec.{Exec}
use go_bootstrap.Store.{User, Store}

-- views.Flash
pub record Flash : Type 0 where
  pub kind : String
  pub message : String
  pub key : String

-- The pages of package views, each with the data that it shows.
pub data Page : Type 0 where
  signin_page : (email : String) → Page
  password_reset_request_page : (email : String) → Page
  password_reset_confirm_page : (token : String) → Page
  home_page : (name : String) → Page
  design_page : Page
  error_page : (status : ℕ) (status_text detail : String) → Page

-- views.LayoutData
pub record LayoutData : Type 0 where
  pub title : String
  pub user : Option User
  pub flash : Option Flash

pub data Response : Type 0 where
  html : (status : ℕ) → LayoutData → Page → Response
  redirect : (status : ℕ) (location : String) → Response
  json : (status : ℕ) (message : String) → Response
  plain : (status : ℕ) (text : String) → Response

pub record Request : Type 0 where
  pub method : String
  pub path : String
  pub uri : String
  pub url_scheme : String
  pub host : String
  pub tls : Bool
  pub header : String → String
  -- what ParseForm answers, and the values of the form and of the query
  pub form_error : Option Error
  pub form : String → String
  pub query : String → String
  -- the address of the socket (echo.ExtractIPDirect)
  pub real_ip : String

-- The behaviour of the third parties.
pub record Site : Type 1 where
  -- scs: the data of one session, and its token
  pub Session : Type 0
  pub get_string : String → Session → String
  pub get_int : String → Session → ℕ
  pub put_string : String → String → Session → Session
  pub put_int : String → ℕ → Session → Session
  pub remove : String → Session → Session
  pub renew_token : Session → Result (Unit {0}) × Session
  pub destroy : Session → Result (Unit {0}) × Session
  pub get_string-put_string :
      (k j v : String) (s : Session)
      → get_string j (put_string k v s) ≡ (if k == j then v else get_string j s)
  pub get_string-put_int :
      (k j : String) (n : ℕ) (s : Session)
      → get_string j (put_int k n s) ≡ (if k == j then "" else get_string j s)
  pub get_int-put_int :
      (k j : String) (n : ℕ) (s : Session)
      → get_int j (put_int k n s) ≡ (if k == j then n else get_int j s)
  pub get_int-put_string :
      (k j v : String) (s : Session)
      → get_int j (put_string k v s) ≡ (if k == j then 0 else get_int j s)
  pub get_string-remove :
      (k j : String) (s : Session)
      → get_string j (remove k s) ≡ (if k == j then "" else get_string j s)
  pub get_int-remove :
      (k j : String) (s : Session) → get_int j (remove k s) ≡ (if k == j then 0 else get_int j s)
  -- RenewToken keeps the data; a Destroy that succeeds clears it.
  pub get_string-renew_token :
      (j : String) (s : Session) → get_string j (renew_token s).1 ≡ get_string j s
  pub get_int-renew_token : (j : String) (s : Session) → get_int j (renew_token s).1 ≡ get_int j s
  pub get_int-destroy :
      (j : String) (s : Session) → (destroy s).0 ≡ ok tt → get_int j (destroy s).1 ≡ 0
  -- url.Parse: the scheme and the host
  pub parse_url : String → Option (String × String)
  -- strings.EqualFold
  pub equal_fold : String → String → Bool
  -- rendering a page in its layout; echo.StatusCode; http.StatusText
  pub render : LayoutData → Page → Option Error
  pub status_code : Error → ℕ
  pub status_text : ℕ → String
  -- the X-Request-Id that middleware.RequestID gives the response to a request
  pub request_id : Request → String

-- sentry.User
pub record SentryUser : Type 0 where
  pub id : ℕ
  pub email : String
  pub username : String
  pub ip_address : String

-- an event for Sentry: the error, and what the scope of the hub holds
pub record Report : Type 0 where
  pub error : Error
  pub request : Request
  pub request_id : String
  pub user : Option SentryUser

pub record Ctx (site : Site) : Type 0 where
  pub store : Store
  pub session : site.Session
  pub request : Request
  pub user : Option User
  pub response : Option Response
  -- what was reported to Sentry; what its SetRequest scrubs off a request is Sentry's
  pub captured : List Report

module _ (site : Site) where
  abbrev pub Handler : Type 0
  Handler = Exec (Ctx site) (Unit {0})

  abbrev pub Middleware : Type 0
  Middleware = Handler → Handler

  -- a call of another package, which works on the store
  abbrev pub on_store : {A : Type 0} → Exec Store A → Exec (Ctx site) A
  on_store m c = ((m c.store).0, record c { store = (m c.store).1 })

  -- Sessions.Put, Sessions.Remove
  abbrev pub on_session : (site.Session → site.Session) → Handler
  on_session f c = (ok tt, record c { session = f c.session })

  -- Sessions.RenewToken, Sessions.Destroy
  abbrev pub try_session : (site.Session → Result (Unit {0}) × site.Session) → Handler
  try_session f c = ((f c.session).0, record c { session = (f c.session).1 })

  -- Sessions.PopString
  abbrev pub pop_string : String → Exec (Ctx site) String
  pop_string key c =
      (ok (site.get_string key c.session), record c { session = site.remove key c.session })

  abbrev pub respond : Response → Handler
  respond r c = (ok tt, record c { response = some r })

  abbrev pub asks : {A : Type 0} → (Ctx site → A) → Exec (Ctx site) A
  asks f c = (ok (f c), c)
