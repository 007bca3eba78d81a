-- ===== src/Webtest/Client/Jar.antt =====
-- The requests of the client pass the gate, and its cookies are what the responses say.
use go_bootstrap.Prelude.{
  String, ◌≡◌, refl, ap, ◌∙◌, true, false, Option, none, some, List, [], ◌∷◌, ◌==◌, eq_iff, eq_refl,
  Bool-cases, inl, inr, if◌then◌else◌, arith,
}
use go_bootstrap.Webtest.Client.{Cookie, without_cookie, keep_cookie, keep_cookies}

-- the cookie of a name in a jar
abbrev pub find_cookie : String → List Cookie → Option Cookie
find_cookie name [] = none
find_cookie name (c ∷ jar) = if c.name == name then some c else find_cookie name jar

-- What the last Set-Cookie of a name says, where there is one.
abbrev pub last_word : String → List Cookie → Option Cookie → Option Cookie
last_word name [] before = before
last_word name (c ∷ cs) before =
    last_word name cs (if c.name == name then (if c.is_deleted then none else some c) else before)

-- two names that are equal to a third, or not, together
eq-same : (a b name : String) → (a == b) ≡ true → (a == name) ≡ (b == name)
eq-same a b name h = ap (λ s. s == name) ((eq_iff a b).0 h)

eq-other : (a b name : String) → (a == b) ≡ false → (a == name) ≡ true → (b == name) ≡ false
eq-other a b name h k = elim (Bool-cases (b == name)) [
  | inr other ↦ other
  | inl same ↦ cc ((eq_iff a name).0 k, (eq_iff b name).0 same, eq_refl a, h)
]

find_cookie-without :
    (name other : String) (jar : List Cookie)
    → find_cookie name (without_cookie other jar)
      ≡ (if other == name then none else find_cookie name jar)
find_cookie-without name other [] = elim (Bool-cases (other == name)) [
  | inl same ↦ rw same refl
  | inr differs ↦ rw differs refl
]
find_cookie-without name other (c ∷ jar) = elim (Bool-cases (c.name == other)) [
  | inl gone ↦
      rw (gone, eq-same c.name other name gone) (ground (arith, find_cookie-without name other jar))
  | inr kept ↦ elim (Bool-cases (c.name == name)) [
    | inl found ↦ rw (kept, found, eq-other c.name other name kept found) refl
    | inr missed ↦ rw (kept, missed) (find_cookie-without name other jar)
  ]
]

find_cookie-keep_cookie :
    (name : String) (c : Cookie) (jar : List Cookie)
    → find_cookie name (keep_cookie c jar)
      ≡ (if c.name == name then (if c.is_deleted then none else some c) else find_cookie name jar)
unfolding keep_cookie
find_cookie-keep_cookie name c jar = elim (Bool-cases c.is_deleted) [
  | inl deleted ↦ rw (keep_cookie, deleted) (ground (arith, find_cookie-without name c.name jar))
  | inr live ↦ rw (keep_cookie, live) (ground (arith, find_cookie-without name c.name jar))
]

-- Behind a response, the jar has under each name what the last cookie of that name in the response says, a
-- cookie with a negative age being none, and what it had before where the response sets no such cookie.
pub find_cookie-keep_cookies :
    (name : String) (set jar : List Cookie)
    → find_cookie name (keep_cookies set jar) ≡ last_word name set (find_cookie name jar)
unfolding keep_cookies
find_cookie-keep_cookies name [] jar = refl
find_cookie-keep_cookies name (c ∷ set) jar =
    find_cookie-keep_cookies name set (keep_cookie c jar)
    ∙ ap (last_word name set) (find_cookie-keep_cookie name c jar)
