-- ===== src/Web/Router/Keeping.antt =====
-- The chain keeps what a view shows of the users.
use go_bootstrap.Prelude.{
  ◌≡◌, refl, ◌∙◌, String, inl, inr, ◌==◌, ◌||◌, ◌&&◌, Bool, true, false, List, Option-cases,
  if◌then◌else◌,
}
use text.Mathlib.Text.{starts_with}
use go_bootstrap.Errors.{Result, ok, err}
use go_bootstrap.Exec.Keeping.{Keeps, option-Shows, if-Shows, test-Shows}
use go_bootstrap.Store.{User}
use go_bootstrap.Db.Keeping.{in_store}
use go_bootstrap.Auth.Users.Identity.{seen}
use go_bootstrap.Auth.Reset.{reset_password}
use go_bootstrap.Platform.{Platform}
use go_bootstrap.Web.Context.{Request, Site, Ctx, Handler}
use go_bootstrap.Web.Secure.{is_same_origin_post, same_origin_post}
use go_bootstrap.Web.Access.{load_user, require_user}
use go_bootstrap.Web.Handlers.{home, password_reset_confirm}
use go_bootstrap.Web.Handlers.Keeping
use go_bootstrap.Web.Handlers.Keeping.{users_in, KeepsUsers}
use go_bootstrap.Web.Access.Keeping.{load_user-Keeps}
use go_bootstrap.Web.Failure.Keeping.{error_handler-Keeps}
use go_bootstrap.Web.Router.{
  Outside, design_showcase, ready, get_route, post_route, route, secured, body_limit, finished,
  serve,
}

-- a request that redeems a reset link
abbrev pub is_reset : Request → Bool
is_reset r = r.method == "POST" && r.path == "/password-reset/confirm"

both : {a b : Bool} → a ≡ true → b ≡ true → (a && b) ≡ true
both h k = rw (h, k) refl

module _ {V : Type 0} (view : Request → List User → V) (site : Site) (p : Platform) where
  -- The two ways of a test, each with what the test says.
  test-known :
      (b : Bool) (yes' no' : Result (Unit {0}) × Ctx site) {v : V}
      → (b ≡ true → users_in view site yes'.1 ≡ v)
      → (b ≡ false → users_in view site no'.1 ≡ v)
      → users_in view site (if b then yes' else no').1 ≡ v
  test-known true yes' no' h k = h refl
  test-known false yes' no' h k = k refl

  if-known :
      (b : Bool) (yes' no' : Handler site) (c : Ctx site) {v : V}
      → (b ≡ true → users_in view site (yes' c).1 ≡ v)
      → (b ≡ false → users_in view site (no' c).1 ≡ v)
      → users_in view site ((if b then yes' else no') c).1 ≡ v
  if-known true yes' no' c h k = h refl
  if-known false yes' no' c h k = k refl

  -- The view shows no reset of a request that redeems a link.
  abbrev pub HidesResets : Type 0
  HidesResets =
      (r : Request)
      → is_reset r ≡ true
      → (token password : String)
      → Keeps (in_store (seen (view r))) (reset_password p token password)

  module _ (o : Outside site) (hides : HidesResets) (assets : KeepsUsers view site o.assets)
      (unrouted : KeepsUsers view site o.unrouted) where
    ready-Keeps : KeepsUsers view site (ready site p o)
    unfolding ready
    ready-Keeps c = elim (Option-cases o.ping) [
      | inl up ↦ rw (ready, up) refl
      | inr (e, down) ↦ rw (ready, down) refl
    ]

    design_showcase-Keeps : KeepsUsers view site (design_showcase site p o)
    unfolding design_showcase
    design_showcase-Keeps c =
        if-Shows (users_in view site) o.prod_mode _ _ c refl
          (Keeping.render_page-Keeps view site _ _ c)

    get_route-Keeps : (path : String) → KeepsUsers view site (get_route site p o path)
    unfolding get_route require_user
    get_route-Keeps path c =
        if-Shows (users_in view site) (starts_with path "/public/" || starts_with path "/ui/") _ _ c
          (assets c)
          (if-Shows (users_in view site) (path == "/health") _ _ c refl (
            if-Shows (users_in view site) (path == "/ready") _ _ c (ready-Keeps c) (
              if-Shows (users_in view site) (path == "/design") _ _ c (design_showcase-Keeps c) (
                if-Shows (users_in view site) (path == "/signin") _ _ c
                  (Keeping.signin_form-Keeps view site p c)
                  (if-Shows (users_in view site) (path == "/password-reset") _ _ c
                    (Keeping.password_reset_request_form-Keeps view site p c)
                    (if-Shows (users_in view site) (path == "/password-reset/confirm") _ _ c
                      (Keeping.password_reset_confirm_form-Keeps view site p c)
                      (if-Shows (users_in view site) (path == "/") _ _ c
                        (Keeping.require_signin-Keeps view site (λ _. home site p)
                          (λ _. Keeping.home-Keeps view site p) c)
                        (unrouted c))))))))

    confirm-Keeps :
        (c : Ctx site)
        → (c.request.method == "POST") ≡ true
        → users_in view site
            ((if c.request.path == "/password-reset/confirm"
                then password_reset_confirm site p
                else o.unrouted)
              c).1
          ≡ users_in view site c
    confirm-Keeps c posts =
        if-known (c.request.path == "/password-reset/confirm") _ _ c
          (λ redeems.
            Keeping.password_reset_confirm-Keeps view site p c
              (hides c.request (both posts redeems)))
          (λ _. unrouted c)

    post_route-Keeps :
        (c : Ctx site)
        → (c.request.method == "POST") ≡ true
        → users_in view site (post_route site p o c.request.path c).1 ≡ users_in view site c
    unfolding post_route
    post_route-Keeps c posts =
        if-Shows (users_in view site) (c.request.path == "/signin") _ _ c
          (Keeping.signin_submit-Keeps view site p c)
          (if-Shows (users_in view site) (c.request.path == "/signout") _ _ c
            (Keeping.signout-Keeps view site p c)
            (if-Shows (users_in view site) (c.request.path == "/password-reset") _ _ c
              (Keeping.password_reset_request-Keeps view site p c) (confirm-Keeps c posts)))

    route-Keeps : KeepsUsers view site (route site p o)
    unfolding route
    route-Keeps c =
        test-Shows (users_in view site) (c.request.method == "GET") _ _
          (get_route-Keeps c.request.path c)
          (test-known (c.request.method == "POST") _ _ (post_route-Keeps c) (λ _. unrouted c))

    chain-Keeps : KeepsUsers view site (
        secured site p o (
          body_limit site p o
            (λ c. c.request)
            (same_origin_post site (load_user site p (route site p o)))))
    unfolding secured body_limit same_origin_post
    chain-Keeps c =
        option-Shows (users_in view site) o.no_nonce _ _ (λ e. refl)
          (option-Shows (users_in view site) (o.too_large c.request) _ _ (λ e. refl)
            (test-Shows (users_in view site) (is_same_origin_post site c.request) _ _
              (load_user-Keeps view site p _ route-Keeps c) refl))

    finished-Keeps :
        (r : Result (Unit {0}) × Ctx site)
        → users_in view site (finished site p o r).1 ≡ users_in view site r.1
    unfolding finished
    finished-Keeps (ok u, c) = refl
    finished-Keeps (err e, c) = error_handler-Keeps view site o.describe o.dev_mode e c

    pub serve-Keeps : KeepsUsers view site (serve site p o)
    unfolding serve
    serve-Keeps c = finished-Keeps _ ∙ chain-Keeps c
