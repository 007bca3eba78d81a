-- ===== src/Web/Secure.antt =====
-- web/secure.go.
pub mod Origin
use Prim.Native.String
use go_bootstrap.Prelude.{
  String, Bool, true, false, not, ◌&&◌, ◌||◌, Option, none, some, List, [], ◌∷◌, ◌==◌,
  if◌then◌else◌,
}
use text.Mathlib.Text.{starts_with}
use go_bootstrap.Prelude.Text.{◌+++◌, is_empty}
use go_bootstrap.Errors.{Error, http, ok, err}
use go_bootstrap.Exec.{fail}
use go_bootstrap.Web.Context.{Request, redirect, Site, Ctx, Handler, Middleware, respond, asks}

-- The headers that SecureHeaders sets, for a nonce and in or out of production.
unfoldable pub secure_headers : Bool → String → List (String × String)
secure_headers prod_mode nonce =
    let always : List (String × String) =
      (
        "Content-Security-Policy",
        "default-src 'self'; script-src 'self' 'nonce-"
            +++ (nonce
                +++ "'; style-src 'self' 'unsafe-inline'; img-src 'self' data:; form-action 'self'; frame-ancestors 'none'; base-uri 'self'"),
      )
      ∷ ("X-Content-Type-Options", "nosniff")
      ∷ ("X-Frame-Options", "DENY")
      ∷ ("Referrer-Policy", "strict-origin-when-cross-origin")
      ∷ [] in
    if prod_mode
    then ("Strict-Transport-Security", "max-age=31536000; includeSubDomains") ∷ always
    else always

unfoldable pub request_scheme : Request → String
request_scheme r =
    if not (is_empty (r.header "X-Forwarded-Proto"))
    then r.header "X-Forwarded-Proto"
    else if not (is_empty r.url_scheme)
    then r.url_scheme
    else if r.tls
    then "https"
    else "http"

unfoldable pub safe_redirect_path : String → Bool
safe_redirect_path path =
    starts_with path "/" && not (starts_with path "//") && not (starts_with path "/\\")

module _ (site : Site) where
  matches_origin : Request → Option (String × String) → Bool
  matches_origin r none = false
  matches_origin r (some (scheme, host)) =
      site.equal_fold scheme (request_scheme r) && site.equal_fold host r.host

  unfoldable pub is_same_origin_post : Request → Bool
  unfolding matches_origin
  is_same_origin_post r =
      if not (r.method == "POST")
      then true
      else if starts_with r.path "/api/inngest"
      then true
      else if not (is_empty (r.header "Origin"))
      then matches_origin r (site.parse_url (r.header "Origin"))
      else r.header "Sec-Fetch-Site" == "same-origin" || r.header "Sec-Fetch-Site" == "none"

  unfoldable pub same_origin_post : Middleware site
  same_origin_post next c =
      if is_same_origin_post c.request then next c else (err (http 403 "forbidden"), c)

  -- echo's Redirect refuses only a status outside 300 to 308, so it does not fail here.
  unfoldable pub safe_redirect : String → Handler site
  safe_redirect path = respond site (redirect 303 (if safe_redirect_path path then path else "/"))
