-- ===== src/Env.antt =====
-- env/env.go: the configuration of the process, read from its environment (os.Getenv).
mod Examples
use go_bootstrap.Prelude.{
  String, ◌≡◌, ◌↔◌, ◌⊎◌, refl, Bool, true, false, not, ◌&&◌, ◌||◌, arith, ◌==◌, eq_iff, subst,
  if◌then◌else◌, Bool-cases, inl, inr,
}
use go_bootstrap.Prelude.Text.{◌+++◌, is_empty, is_empty-append}
use go_bootstrap.Errors.{
  sentinel, detailed, bad_app_env, app_url_required, mail_from_required, Result, ok, err,
}

pub record Env : Type 0 where
  pub app_env : String
  pub port : String
  pub public_dir : String
  pub base_url : String
  pub mail_from : String

unfoldable pub is_dev : Env → Bool
is_dev e = e.app_env == "development"

unfoldable pub is_production : Env → Bool
is_production e = e.app_env == "production"

module _ (os : String → String) where
  abbrev pub getenv : String → String → String
  getenv key fallback = if is_empty (os key) then fallback else os key

  -- one of the three environments
  unfoldable pub is_known : String → Bool
  is_known app_env = app_env == "development" || app_env == "test" || app_env == "production"

  abbrev pub app_env_of : String
  app_env_of = getenv "APP_ENV" "development"

  -- the value that Load returns behind its checks
  abbrev pub configured : Env
  configured = record {
    app_env = app_env_of;
    port = getenv "PORT" "8080";
    public_dir = getenv "PUBLIC_DIR" "public";
    base_url =
        if is_empty (os "APP_URL")
        then "http://localhost:" +++ getenv "PORT" "8080"
        else os "APP_URL";
    mail_from = os "MAIL_FROM";
  }

  unfoldable pub load : Result Env
  unfolding is_known
  load =
      if not (is_known app_env_of)
      then err (detailed bad_app_env app_env_of)
      else if is_empty (os "APP_URL") && app_env_of == "production"
      then err (sentinel app_url_required)
      else if is_empty (os "MAIL_FROM") && app_env_of == "production"
      then err (sentinel mail_from_required)
      else ok configured

  -- What the process may rely on.
  pub record IsConfigured (e : Env) : Type 0 where
    pub known : is_known e.app_env ≡ true
    pub port : is_empty e.port ≡ false
    pub public_dir : is_empty e.public_dir ≡ false
    pub base_url : is_empty e.base_url ≡ false
    pub origin : (is_production e ≡ false) ⊎ (e.base_url ≡ os "APP_URL")
    pub sender : (is_production e ≡ false) ⊎ (is_empty e.mail_from ≡ false)

  getenv-fallback :
      (key fallback : String) → is_empty fallback ≡ false → is_empty (getenv key fallback) ≡ false
  getenv-fallback key fallback h = ground arith

  load-eq-ok :
      (e : Env)
      → load ≡ ok e
      → (configured ≡ e)
        × (is_known app_env_of ≡ true)
        × ((is_empty (os "APP_URL") && app_env_of == "production") ≡ false)
        × ((is_empty (os "MAIL_FROM") && app_env_of == "production") ≡ false)
  unfolding load
  load-eq-ok e h = ground arith

  configured-IsConfigured :
      is_known app_env_of ≡ true
      → (is_empty (os "APP_URL") && app_env_of == "production") ≡ false
      → (is_empty (os "MAIL_FROM") && app_env_of == "production") ≡ false
      → IsConfigured configured
  unfolding is_production
  configured-IsConfigured known url from = record {
    known = known;
    port = getenv-fallback "PORT" "8080" refl;
    public_dir = getenv-fallback "PUBLIC_DIR" "public" refl;
    base_url = elim (Bool-cases (is_empty (os "APP_URL"))) [
      | inl unset ↦ rw unset (is_empty-append "http://localhost:" (getenv "PORT" "8080") refl)
      | inr set ↦ rw (set, set) refl
    ];
    origin = ground arith;
    sender = ground arith;
  }

  -- A configuration that loads names one of the three environments, a port, a directory and an
  -- origin; in production the origin is APP_URL, not the fallback, and there is a sender of mail.
  pub load-IsConfigured : (e : Env) → load ≡ ok e → IsConfigured e
  load-IsConfigured e h =
      let (same, known, url, from) = load-eq-ok e h in
      subst IsConfigured same (configured-IsConfigured known url from)
