-- ===== src/Web/Failure/Answering.antt =====
-- The error handler leaves a response, its own or the one that is committed.
use go_bootstrap.Prelude.{
  ℕ, ◌≡◌, refl, String, Bool, true, false, Option, none, some, is_some, leb, if◌then◌else◌,
}
use go_bootstrap.Errors.{Error, ok}
use go_bootstrap.Web.Context.{LayoutData, Page, Response, Site, Ctx}
use go_bootstrap.Web.Failure.{
  wants_html, capture_error, json_error, status_of, report, write_error, show_error, error_handler,
}

module _ (site : Site) where
  write_error-responds :
      (broken : Option Error) (status : ℕ) (layout : LayoutData) (page : Page) (c : Ctx site)
      → site.render layout page ≡ broken
      → let r = write_error site status layout page c in
        (r.0 ≡ ok tt) × (is_some r.1.response ≡ true)
  unfolding write_error
  write_error-responds none status layout page c h = rw (write_error, h) (refl, refl)
  write_error-responds (some e) status layout page c h = rw (write_error, h) (refl, refl)

  show_error-responds :
      (html : Bool) (status : ℕ) (detail : String) (c : Ctx site)
      → wants_html c.request ≡ html
      → let r = show_error site status detail c in (r.0 ≡ ok tt) × (is_some r.1.response ≡ true)
  unfolding show_error json_error
  show_error-responds true status detail c h =
      rw (show_error, h) (write_error-responds _ status _ _ c refl)
  show_error-responds false status detail c h = rw (show_error, h) (refl, refl)

  handled-responds :
      (response : Option Response) (big : Bool) (describe : Error → String) (dev_mode : Bool)
      (e : Error) (c : Ctx site)
      → c.response ≡ response
      → leb 500 (status_of site e) ≡ big
      → let r = error_handler site describe dev_mode e c in
        (r.0 ≡ ok tt) × (is_some r.1.response ≡ true)
  unfolding error_handler report capture_error
  handled-responds (some there) big describe dev_mode e c h k =
      rw (error_handler, h) (refl, rw h refl)
  handled-responds none true describe dev_mode e c h k =
      rw (error_handler, h)
        (rw k (
          show_error-responds _ (status_of site e) (if dev_mode then describe e else "")
            (capture_error site e c).1 refl))
  handled-responds none false describe dev_mode e c h k =
      rw (error_handler, h)
        (rw k
          (show_error-responds _ (status_of site e) (if dev_mode then describe e else "") c refl))

  pub error_handler-responds :
      (describe : Error → String) (dev_mode : Bool) (e : Error) (c : Ctx site)
      → let r = error_handler site describe dev_mode e c in
        (r.0 ≡ ok tt) × (is_some r.1.response ≡ true)
  error_handler-responds describe dev_mode e c =
      handled-responds c.response (leb 500 (status_of site e)) describe dev_mode e c refl refl
