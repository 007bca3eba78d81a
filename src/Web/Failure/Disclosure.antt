-- ===== src/Web/Failure/Disclosure.antt =====
-- What a failure gives away.
use go_bootstrap.Prelude.{
  ℕ, String, ◌≤◌, ◌⊎◌, nat_eq, ap, ◌∙◌, true, ◌≡◌, refl, Bool, false, Option, none, some, List, [],
  ◌∷◌, ◌++◌, leb, not, arith, if◌then◌else◌, Bool-cases, inl, inr, append-nil,
}
use mathlib.Core.Option.{map}
use go_bootstrap.Errors.{Error, ok}
use go_bootstrap.Web.Context.{
  Report, LayoutData, error_page, Response, html, redirect, json, plain, Site, Ctx,
}
use go_bootstrap.Prelude.Text.{is_empty}
use go_bootstrap.Store.{User}
use go_bootstrap.Web.Flash.{set_keyed_flash, put_flash_key}
use go_bootstrap.Web.Secure.{safe_redirect}
use go_bootstrap.Web.Failure.{
  event_of, sentry_user, wants_html, json_error, capture_error, status_of, report, error_layout,
  write_error, show_error, error_handler, message_or, report_unexpected, finish_failed,
  finish_mutation,
}

abbrev pub response_status : Response → ℕ
response_status (html status layout page) = status
response_status (redirect status location) = status
response_status (json status message) = status
response_status (plain status text) = status

module _ (site : Site) where
  -- the response to an error, whatever was reported before
  error_response : ℕ → String → Ctx site → Response
  error_response status detail c =
      let layout : LayoutData = record {
        title = site.status_text status;
        user = c.user;
        flash = none;
      } in
      let page = error_page status (site.status_text status) detail in
      if not (wants_html c.request)
      then json status (site.status_text status)
      else elim (site.render layout page) [
        | some broken ↦ plain status (site.status_text status)
        | none ↦ html status layout page
      ]

  show_error-response :
      (status : ℕ) (detail : String) (c : Ctx site) (l : List Report)
      → show_error site status detail (record c { captured = l })
        ≡ (ok tt, record c { response = some (error_response status detail c); captured = l })
  unfolding show_error json_error error_layout write_error error_response
  show_error-response status detail c l = ground arith

  error_response-status :
      (status : ℕ) (detail : String) (c : Ctx site)
      → response_status (error_response status detail c) ≡ status
  unfolding error_response
  error_response-status status detail c = ground arith

  -- what is reported of an error
  abbrev pub reported : Error → Ctx site → List Report
  reported e c = c.captured ++ (if leb 500 (status_of site e) then event_of site e c ∷ [] else [])

  reported_lem :
      (c : Ctx site) (e : Error) (five : Bool)
      → c.captured ++ (if five then event_of site e c ∷ [] else [])
        ≡ (if five then c.captured ++ event_of site e c ∷ [] else c.captured)
  reported_lem c e true = refl
  reported_lem c e false = append-nil c.captured

  status_lem :
      (e : Error)
      → (status : ℕ) × (((site.status_code e ≡ 0) × (status ≡ 500))
          ⊎ ((1 ≤ site.status_code e) × (status ≡ site.status_code e)))
        × (status_of site e ≡ status)
  unfolding status_of
  status_lem e = elim (Bool-cases (nat_eq (site.status_code e) 0)) [
    | inl zero' ↦ (500, inl (ground (arith, zero'), refl), rw zero' refl)
    | inr there ↦ (site.status_code e, inr (ground (arith, there), refl), rw there refl)
  ]

  -- what is reported of a user
  sentry_user_lem :
      (user : Option User)
      → sentry_user user
        ≡ map (λ u. record { id = u.id; email = ""; username = ""; ip_address = "" }) user
  unfolding sentry_user
  sentry_user_lem none = refl
  sentry_user_lem (some user) = refl

  module _ (describe : Error → String) where
    error_handler-response :
        (dev_mode : Bool) (e : Error) (c : Ctx site)
        → c.response ≡ none
        → error_handler site describe dev_mode e c ≡ (
          ok tt,
          record c {
            response =
                some (error_response (status_of site e) (if dev_mode then describe e else "") c);
            captured = reported e c;
          },
        )
    unfolding error_handler report capture_error
    error_handler-response dev_mode e c h = elim (Bool-cases (leb 500 (status_of site e))) [
      | inl five ↦ ground (
        arith,
        five,
        h,
        show_error-response (status_of site e) (if dev_mode then describe e else "") c
            (c.captured ++ event_of site e c ∷ []),
      )
      | inr less ↦ ground (
        arith,
        less,
        h,
        append-nil c.captured,
        show_error-response (status_of site e) (if dev_mode then describe e else "") c c.captured,
      )
    ]

    pub error_handler-answers :
        (dev_mode : Bool) (e : Error) (c : Ctx site) (status : ℕ)
        → status_of site e ≡ status
        → c.response ≡ none
        → (response : Response) × (response_status response ≡ status)
          × (error_handler site describe dev_mode e c ≡ (
            ok tt,
            record c {
              response = some response;
              captured =
                  if leb 500 status then c.captured ++ event_of site e c ∷ [] else c.captured;
            },
          ))
    error_handler-answers dev_mode e c status k h =
        let detail = if dev_mode then describe e else "" in
        (
          error_response (status_of site e) detail c,
          error_response-status (status_of site e) detail c ∙ k,
          error_handler-response dev_mode e c h
              ∙ ap
                  (λ l. (
                    ok tt,
                    record c {
                      response = some (error_response (status_of site e) detail c);
                      captured = l;
                    },
                  ))
                  (rw k (reported_lem c e (leb 500 status))),
        )

    -- An error behind which nothing was written yet is answered with the status that echo finds in it, and
    -- with 500 if that is zero. Exactly if the status of the answer is at least 500, the error is reported,
    -- with the request, the id of the request, and of the user, if there is one, the id alone; nothing else
    -- changes.
    pub error_handler_lem :
        (dev_mode : Bool) (e : Error) (c : Ctx site)
        → c.response ≡ none
        → (response : Response) × (status : ℕ) × (((site.status_code e ≡ 0) × (status ≡ 500))
            ⊎ ((1 ≤ site.status_code e) × (status ≡ site.status_code e)))
          × (response_status response ≡ status)
          × (error_handler site describe dev_mode e c ≡ (
            ok tt,
            record c {
              response = some response;
              captured =
                  if leb 500 status
                  then c.captured
                    ++ record {
                      error = e;
                      request = c.request;
                      request_id = site.request_id c.request;
                      user =
                          map
                            (λ u. record { id = u.id; email = ""; username = ""; ip_address = "" })
                            c.user;
                    }
                      ∷ []
                  else c.captured;
            },
          ))
    unfolding event_of
    error_handler_lem dev_mode e c h =
        let (status, known, is_it) = status_lem e in
        let (response, answered, same) = error_handler-answers dev_mode e c status is_it h in
        (
          response,
          status,
          known,
          answered,
          same
              ∙ ap
                  (λ u. (
                    ok tt,
                    record c {
                      response = some response;
                      captured =
                          if leb 500 status
                          then c.captured
                            ++ record {
                              error = e;
                              request = c.request;
                              request_id = site.request_id c.request;
                              user = u;
                            }
                              ∷ []
                          else c.captured;
                    },
                  ))
                  (sentry_user_lem c.user),
        )

    -- Outside development, where nothing was written yet, two errors of one status are answered alike:
    -- nothing else of an error shows.
    pub error_handler-hides :
        (e d : Error) (c : Ctx site)
        → c.response ≡ none
        → site.status_code e ≡ site.status_code d
        → (error_handler site describe false e c).1.response
          ≡ (error_handler site describe false d c).1.response
    error_handler-hides e d c h same =
        let alike : status_of site e ≡ status_of site d = unfold status_of in rw same refl in
        rw (error_handler-response false e c h, error_handler-response false d c h, alike) refl

  module _ (user_message : Error → Option String) where
    -- Two internal errors, which hold no message for the user, end a mutation with the same redirect
    -- and the same session, and each is reported once.
    pub finish_mutation-hides :
        (e d : Error) (key message path : String) (c : Ctx site)
        → user_message e ≡ none
        → user_message d ≡ none
        → let finish = λ (x : Error).
          finish_mutation user_message site
            (record {
              failure = some x;
              error_flash_key = key;
              ok_message = message;
              redirect_to = path;
            })
            c in
          ((finish e).0 ≡ (finish d).0)
          × ((finish e).1 ≡ record (finish d).1 { captured = c.captured ++ event_of site e c ∷ [] })
    unfolding finish_mutation finish_failed message_or capture_error report_unexpected
        set_keyed_flash put_flash_key safe_redirect
    finish_mutation-hides e d key message path c h k = elim (Bool-cases (is_empty key)) [
      | inl none' ↦ rw (report_unexpected, message_or, h, k, none') (refl, refl)
      | inr some' ↦ rw (report_unexpected, message_or, h, k, some') (refl, refl)
    ]
