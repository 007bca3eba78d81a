-- ===== src/Webtest/Client/Gate.antt =====
-- The requests of the client pass the same-origin gate, unless a test overrides what the gate reads.
use go_bootstrap.Prelude.{
  String, ◌≡◌, refl, ◌∙◌, true, false, not, Option, none, some, List, [], ◌∷◌, All, ◌==◌,
  Bool-cases, inl, inr,
}
use text.Mathlib.Text.{starts_with}
use go_bootstrap.Prelude.Text.{is_empty}
use go_bootstrap.Web.Context.{Request, Site}
use go_bootstrap.Web.Secure.{is_same_origin_post}
use go_bootstrap.Webtest.Client.{Form, World, set_header, override, default_headers, request_of}

-- none of the headers has the name
abbrev pub Leaves : String → List (String × String) → Type 0
Leaves name headers = All (λ (k, v). (k == name) ≡ false) headers

override-other :
    (name : String) (headers : List (String × String)) (header : String → String)
    → Leaves name headers
    → override headers header name ≡ header name
unfolding override set_header
override-other name [] header h = refl
override-other name ((k, v) ∷ headers) header h = elim (Bool-cases (is_empty v)) [
  | inl unset ↦ override-other name headers _ h.1 ∙ rw (unset, h.0) refl
  | inr set ↦ override-other name headers _ h.1 ∙ rw (set, h.0) refl
]

no_origin : (form : Option Form) → default_headers form "Origin" ≡ ""
unfolding default_headers set_header
no_origin none = refl
no_origin (some form) = refl

same_origin : (form : Option Form) → default_headers form "Sec-Fetch-Site" ≡ "same-origin"
unfolding default_headers set_header
same_origin none = refl
same_origin (some form) = refl

-- What the gate reads, where there is no Origin and the fetch is from the same origin.
trusted :
    (site : Site) (r : Request)
    → r.header "Origin" ≡ ""
    → r.header "Sec-Fetch-Site" ≡ "same-origin"
    → is_same_origin_post site r ≡ true
unfolding is_same_origin_post
trusted site r h k = elim (Bool-cases (not (r.method == "POST"))) [
  | inl reads ↦ rw (is_same_origin_post, reads) refl
  | inr writes ↦ elim (Bool-cases (starts_with r.path "/api/inngest")) [
    | inl signed ↦ rw (is_same_origin_post, writes, signed) refl
    | inr plain ↦ simp (is_same_origin_post, writes, plain, h, k)
  ]
]

-- A request of the client whose test sets neither Origin nor Sec-Fetch-Site passes the same-origin gate,
-- whatever its method, its target, its form and its other headers are.
pub request_of-passes :
    (w : World) (site : Site) (method path : String) (form : Option Form)
    (headers : List (String × String))
    → Leaves "Origin" headers
    → Leaves "Sec-Fetch-Site" headers
    → is_same_origin_post site (request_of w method path form headers) ≡ true
unfolding request_of
request_of-passes w site method path form headers h k =
    trusted site (request_of w method path form headers)
      (override-other "Origin" headers (default_headers form) h ∙ no_origin form)
      (override-other "Sec-Fetch-Site" headers (default_headers form) k ∙ same_origin form)
