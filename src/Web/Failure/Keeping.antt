-- ===== src/Web/Failure/Keeping.antt =====
-- The error handler leaves the users as they are.
use go_bootstrap.Prelude.{
  List, ℕ, refl, String, Bool, leb, not, Option-cases, inl, inr, if◌then◌else◌,
}
use go_bootstrap.Errors.{Error}
use go_bootstrap.Store.{User}
use go_bootstrap.Exec.Keeping.{continue-Shows, test-Shows}
use go_bootstrap.Web.Context.{LayoutData, Page, Request, Site}
use go_bootstrap.Web.Handlers.Keeping.{users_in, KeepsUsers}
use go_bootstrap.Web.Failure.{
  wants_html, capture_error, json_error, status_of, report, error_layout, write_error, show_error,
  error_handler,
}

module _ {V : Type 0} (view : Request → List User → V) (site : Site) where
  write_error-Keeps :
      (status : ℕ) (layout : LayoutData) (page : Page)
      → KeepsUsers view site (write_error site status layout page)
  unfolding write_error
  write_error-Keeps status layout page c = elim (Option-cases (site.render layout page)) [
    | inl rendered ↦ rw (write_error, rendered) refl
    | inr (e, broken) ↦ rw (write_error, broken) refl
  ]

  show_error-Keeps :
      (status : ℕ) (detail : String) → KeepsUsers view site (show_error site status detail)
  unfolding show_error json_error
  show_error-Keeps status detail c =
      test-Shows (users_in view site) (not (wants_html c.request)) _ _ refl
        (write_error-Keeps status (error_layout site status c.user) _ c)

  report-Keeps : (status : ℕ) (e : Error) → KeepsUsers view site (report site status e)
  unfolding report capture_error
  report-Keeps status e c = test-Shows (users_in view site) (leb 500 status) _ _ refl refl

  pub error_handler-Keeps :
      (describe : Error → String) (dev_mode : Bool) (e : Error)
      → KeepsUsers view site (error_handler site describe dev_mode e)
  unfolding error_handler
  error_handler-Keeps describe dev_mode e c = elim (Option-cases c.response) [
    | inr (there, h) ↦ rw (error_handler, h) refl
    | inl h ↦
        rw (error_handler, h)
          (continue-Shows (users_in view site) (report site (status_of site e) e c).0 _ _
            (report-Keeps (status_of site e) e c)
            (λ _. show_error-Keeps (status_of site e) (if dev_mode then describe e else "")))
  ]
