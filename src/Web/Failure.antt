-- ===== src/Web/Failure.antt =====
-- web/errors.go, web/apierror/apierror.go and the mutations of web/forms.go: what a failure shows and
-- what it reports. Log lines are not modelled; a JSON response is taken to be written.
pub mod Disclosure
pub mod Answering
pub mod Keeping
use go_bootstrap.Prelude.{
  ℕ, String, Bool, Option, none, some, List, [], ◌∷◌, ◌++◌, leb, nat_eq, not, if◌then◌else◌,
}
use go_bootstrap.Prelude.Text.{contains}
use go_bootstrap.Errors.{Error, Result, ok, err}
use go_bootstrap.Exec.{Exec, attempt, ◌>>=◌, ◌>>◌}
use go_bootstrap.Store.{User}
use go_bootstrap.Web.Context.{
  SentryUser, Report, LayoutData, Page, error_page, Response, html, json, plain, Request, Site, Ctx,
  Handler, respond, asks,
}
use go_bootstrap.Web.Flash.{set_flash, set_keyed_flash}
use go_bootstrap.Web.Secure.{safe_redirect}

-- hub.Scope().SetUser, for a user that is signed in
unfoldable pub sentry_user : Option User → Option SentryUser
sentry_user none = none
sentry_user (some user) = some (record { id = user.id; email = ""; username = ""; ip_address = "" })

-- the part of the request that errorHandler reads
unfoldable pub wants_html : Request → Bool
wants_html r = contains (r.header "Accept") "text/html"

-- FormResult
pub record FormResult : Type 0 where
  pub failure : Option Error
  pub error_flash_key : String
  pub ok_message : String
  pub redirect_to : String

module _ (site : Site) where
  -- the event of an error
  unfoldable pub event_of : Error → Ctx site → Report
  unfolding sentry_user
  event_of e c = record {
    error = e;
    request = c.request;
    request_id = site.request_id c.request;
    user = sentry_user c.user;
  }

  unfoldable pub capture_error : Error → Handler site
  unfolding event_of
  capture_error e c = (ok tt, record c { captured = c.captured ++ event_of e c ∷ [] })

  -- apierror.JSON and apierror.Internal
  unfoldable pub json_error : ℕ → String → Handler site
  json_error status message = respond site (json status message)

  unfoldable pub internal_error : Error → Handler site
  unfolding json_error
  internal_error e = json_error 500 "Internal Server Error"

  -- 500 for an error that has no status
  unfoldable pub status_of : Error → ℕ
  status_of e = if nat_eq (site.status_code e) 0 then 500 else site.status_code e

  report : ℕ → Error → Handler site
  unfolding capture_error
  report status e c = if leb 500 status then capture_error e c else (ok tt, c)

  error_layout : ℕ → Option User → LayoutData
  error_layout status user = record { title = site.status_text status; user = user; flash = none }

  -- The page renders, or the text of the status stands in for it.
  write_error : ℕ → LayoutData → Page → Handler site
  write_error status layout page = elim (site.render layout page) [
    | some broken ↦ respond site (plain status (site.status_text status))
    | none ↦ respond site (html status layout page)
  ]

  show_error : ℕ → String → Handler site
  unfolding wants_html json_error error_layout write_error
  show_error status detail c =
      if not (wants_html c.request)
      then json_error status (site.status_text status) c
      else write_error status (error_layout status c.user)
          (error_page status (site.status_text status) detail) c

  -- A response that a handler wrote is committed. `describe` is the text of an error.
  unfoldable pub error_handler : (Error → String) → Bool → Error → Handler site
  unfolding status_of report show_error
  error_handler describe dev_mode e c = elim c.response [
    | some committed ↦ (ok tt, c)
    | none ↦
        (do report (status_of e) e; show_error (status_of e) (if dev_mode then describe e else ""))
          c
  ]

-- `user_message` is what errors.As finds of a UserMessager in an error.
module _ (user_message : Error → Option String) where
  unfoldable pub message_or : Error → String → String
  message_or e fallback = elim (user_message e) [ some message ↦ message | none ↦ fallback ]

  module _ (site : Site) where
    report_unexpected : Error → Handler site
    unfolding capture_error
    report_unexpected e = elim (user_message e) [
      | some message ↦ λ c. (ok tt, c)
      | none ↦ capture_error site e
    ]

    finish_failed : FormResult → Error → Handler site
    unfolding report_unexpected message_or
    finish_failed result e = do
      report_unexpected e
      set_keyed_flash site "error" result.error_flash_key (message_or e "could not save changes")
      safe_redirect site result.redirect_to

    unfoldable pub finish_mutation : FormResult → Handler site
    unfolding finish_failed
    finish_mutation result = elim result.failure [
      | some e ↦ finish_failed result e
      | none ↦ do set_flash site "ok" result.ok_message; safe_redirect site result.redirect_to
    ]
