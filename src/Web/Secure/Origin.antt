-- ===== src/Web/Secure/Origin.antt =====
-- The same-origin gate and the redirects stay on this site.
use go_bootstrap.Prelude.{
  String, ◌≡◌, ◌⊎◌, refl, true, false, ◌||◌, some, arith, ◌==◌, Bool-cases, Option-cases, inl, inr,
}
use text.Mathlib.Text.{starts_with}
use go_bootstrap.Prelude.Text.{is_empty}
use go_bootstrap.Errors.{http, err}
use go_bootstrap.Web.Context.{Request, redirect, Site, Ctx, Handler}
use go_bootstrap.Web.Secure.{
  request_scheme, is_same_origin_post, same_origin_post, safe_redirect_path, safe_redirect,
}

-- Why a request may pass the gate.
pub data Trusted (site : Site) (r : Request) : Type 0 where
  not_a_post : (r.method == "POST") ≡ false → Trusted site r
  signed : starts_with r.path "/api/inngest" ≡ true → Trusted site r
  same_origin :
      (scheme host : String)
      → is_empty (r.header "Origin") ≡ false
      → site.parse_url (r.header "Origin") ≡ some (scheme, host)
      → site.equal_fold scheme (request_scheme r) ≡ true
      → site.equal_fold host r.host ≡ true
      → Trusted site r
  same_site :
      is_empty (r.header "Origin") ≡ true
      → (r.header "Sec-Fetch-Site" == "same-origin" || r.header "Sec-Fetch-Site" == "none") ≡ true
      → Trusted site r

module _ (site : Site) where
  pub Trusted-complete : (r : Request) → Trusted site r → is_same_origin_post site r ≡ true
  unfolding is_same_origin_post
  Trusted-complete r (not_a_post h) = rw h
  Trusted-complete r (signed h) = ground arith
  Trusted-complete r (same_origin scheme host there parsed a b) = ground arith
  Trusted-complete r (same_site absent h) = ground arith

  Trusted-sound : (r : Request) → is_same_origin_post site r ≡ true → Trusted site r
  unfolding is_same_origin_post
  Trusted-sound r h = elim (Bool-cases (r.method == "POST")) [
    | inr other ↦ not_a_post other
    | inl post ↦ elim (Bool-cases (starts_with r.path "/api/inngest")) [
      | inl exempt ↦ signed exempt
      | inr plain ↦ elim (Bool-cases (is_empty (r.header "Origin"))) [
        | inl absent ↦ same_site absent (ground arith)
        | inr there ↦ elim (Option-cases (site.parse_url (r.header "Origin"))) [
          | inl bad ↦ absurd (ground arith)
          | inr ((scheme, host), parsed) ↦
              same_origin scheme host there parsed (ground arith) (ground arith)
        ]
      ]
    ]
  ]

  -- The gate runs the handler exactly when there is a reason to trust the request: it is no POST, or
  -- it goes to the endpoint with signatures, or its Origin is a URL with the scheme and the host of
  -- this site, or it has no Origin and Sec-Fetch-Site says same-origin or none. Else it answers 403
  -- and changes nothing.
  pub same_origin_post_lem :
      (next : Handler site) (c : Ctx site)
      → (Trusted site c.request × (same_origin_post site next c ≡ next c))
        ⊎ ((¬ Trusted site c.request)
            × (same_origin_post site next c ≡ (err (http 403 "forbidden"), c)))
  unfolding same_origin_post
  same_origin_post_lem next c = elim (Bool-cases (is_same_origin_post site c.request)) [
    | inl passes ↦ inl (Trusted-sound c.request passes, rw passes)
    | inr fails ↦ inr (λ t. cc (fails, Trusted-complete c.request t), rw fails)
  ]

  -- A redirect, whatever path it is given, is a 303 to a path that begins with a slash, and with
  -- neither two slashes nor a slash and a backslash. A path is kept if it is of that kind.
  pub safe_redirect_lem :
      (path : String) (c : Ctx site)
      → (location : String) × ((safe_redirect site path c).1.response
          ≡ some (redirect 303 location))
        × (starts_with location "/" ≡ true)
        × (starts_with location "//" ≡ false)
        × (starts_with location "/\\" ≡ false)
        × ((location ≡ path)
            ⊎ (starts_with path "/" ≡ false)
            ⊎ (starts_with path "//" ≡ true)
            ⊎ (starts_with path "/\\" ≡ true))
  unfolding safe_redirect safe_redirect_path
  safe_redirect_lem path c = elim (Bool-cases (safe_redirect_path path)) [
    | inl safe ↦ (path, rw safe refl, ground arith, ground arith, ground arith, inl refl)
    | inr unsafe ↦ ("/", rw unsafe refl, refl, refl, refl, ground arith)
  ]
