-- ===== src/Web/Sessions.antt =====
-- Configure of web/sessions.go: the settings of the sessions and of the debugging posture, by APP_ENV.
-- Times are in hours.
use go_bootstrap.Prelude.{
  ℕ, ◌*◌, String, ◌≡◌, refl, Bool, true, false, ◌&&◌, ◌==◌, eq_iff, Bool-cases, inl, inr,
}

pub data SameSite : Type 0 where
  lax strict none_mode : SameSite

pub record Settings : Type 0 where
  pub dev_mode : Bool
  pub prod_mode : Bool
  pub lifetime : ℕ
  pub idle_timeout : ℕ
  pub cookie_name : String
  pub http_only : Bool
  pub same_site : SameSite
  pub secure : Bool

unfoldable pub configure_web : String → Settings
configure_web app_env = record {
  dev_mode = app_env == "development";
  prod_mode = app_env == "production";
  lifetime = 30 * 24;
  idle_timeout = 7 * 24;
  cookie_name = "session";
  http_only = true;
  same_site = lax;
  secure = app_env == "production";
}

-- No environment is both: full error pages are never shown where the cookie is one for HTTPS only.
pub configure_web-apart :
    (app_env : String)
    → ((configure_web app_env).dev_mode && (configure_web app_env).secure) ≡ false
unfolding configure_web
configure_web-apart app_env = elim (Bool-cases (app_env == "development")) [
  | inl dev ↦ rw ((eq_iff app_env "development").0 dev) refl
  | inr other ↦ rw other refl
]
