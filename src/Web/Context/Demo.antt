-- ===== src/Web/Context/Demo.antt =====
-- A concrete site for the tests: a session is what it holds of texts and of numbers, and a URL is
-- one of two.
use go_bootstrap.Prelude.{ℕ, String, true, none, some, [], ◌==◌, refl, if◌then◌else◌}
use go_bootstrap.Errors.{Error, sentinel, wrap, detailed, http, http_wrap, ok}
use go_bootstrap.Store.{Store}
use go_bootstrap.Web.Context.{Request, Site, Ctx}

abbrev pub DemoSession : Type 0
DemoSession = (String → String) × (String → ℕ)

abbrev status_in : Error → ℕ
status_in (sentinel c) = 0
status_in (wrap text e) = status_in e
status_in (detailed c text) = 0
status_in (http status text) = status
status_in (http_wrap status text e) = status

abbrev pub demo_site : Site
demo_site = record {
  Session = DemoSession;
  get_string = λ k s. s.0 k;
  get_int = λ k s. s.1 k;
  put_string = λ k v s. (λ j. if k == j then v else s.0 j, λ j. if k == j then 0 else s.1 j);
  put_int = λ k n s. (λ j. if k == j then "" else s.0 j, λ j. if k == j then n else s.1 j);
  remove = λ k s. (λ j. if k == j then "" else s.0 j, λ j. if k == j then 0 else s.1 j);
  renew_token = λ s. (ok tt, s);
  destroy = λ s. (ok tt, (λ j. "", λ j. 0));
  get_string-put_string = λ k j v s. refl;
  get_string-put_int = λ k j n s. refl;
  get_int-put_int = λ k j n s. refl;
  get_int-put_string = λ k j v s. refl;
  get_string-remove = λ k j s. refl;
  get_int-remove = λ k j s. refl;
  get_string-renew_token = λ j s. refl;
  get_int-renew_token = λ j s. refl;
  get_int-destroy = λ j s h. refl;
  parse_url = λ s.
      if s == "https://app.example"
      then some ("https", "app.example")
      else if s == "https://evil.example"
      then some ("https", "evil.example")
      else none;
  equal_fold = λ s t. s == t;
  render = λ layout page. none;
  status_code = λ e. status_in e;
  status_text = λ status. "status";
  request_id = λ r. "id";
}

abbrev pub demo_session : String → ℕ → String → DemoSession
demo_session path id epoch = (
  λ k. if k == "after_signin" then path else if k == "password_epoch" then epoch else "",
  λ k. if k == "user_id" then id else 0,
)

-- a POST of the signin form to app.example, with an origin
abbrev pub demo_request : String → String → String → Request
demo_request origin email password = record {
  method = "POST";
  path = "/signin";
  uri = "/signin";
  url_scheme = "";
  host = "app.example";
  tls = true;
  header = λ k. if k == "Origin" then origin else if k == "Accept" then "text/html" else "";
  form_error = none;
  form = λ k. if k == "email" then email else if k == "password" then password else "";
  query = λ k. "";
  real_ip = "10.0.0.1";
}

abbrev pub demo_ctx : Store → DemoSession → Request → Ctx demo_site
demo_ctx store session request = record {
  store = store;
  session = session;
  request = request;
  user = none;
  response = none;
  captured = [];
}
