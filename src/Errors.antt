-- ===== src/Errors.antt =====
-- Go's error values. A sentinel (errors.New) is a `Cause`; fmt.Errorf with %w is `wrap`, which keeps
-- the text that stands before the cause; echo's HTTP errors carry a status and may wrap a cause.
use go_bootstrap.Prelude.{ℕ, String, Bool, nat_eq}

pub data Cause : Type 0 where
  -- db
  not_found too_many_rows incorrect_mutation : Cause
  -- pgx
  no_rows pgx_too_many_rows : Cause
  -- auth
  email_required password_required password_too_short password_too_long : Cause
  invalid_credentials email_taken reset_token_invalid missing_role : Cause
  -- env
  bad_app_env app_url_required mail_from_required : Cause
  -- logging
  unknown_level : Cause
  -- flows, cmd/migrate
  not_configured usage : Cause
  -- telemetry
  sentry_flush_timeout : Cause
  -- an error of Postgres, with its SQLSTATE code and the constraint's name
  pg_error : String → String → Cause
  -- any other error of a third party: a lost connection, a cancelled context, a failed mail
  external : String → Cause

-- the identity that errors.Is compares
abbrev pub identity : Cause → ℕ
identity not_found = 1
identity too_many_rows = 2
identity incorrect_mutation = 3
identity no_rows = 4
identity pgx_too_many_rows = 5
identity email_required = 6
identity password_required = 7
identity password_too_short = 8
identity password_too_long = 9
identity invalid_credentials = 10
identity email_taken = 11
identity reset_token_invalid = 12
identity missing_role = 13
identity bad_app_env = 14
identity app_url_required = 15
identity mail_from_required = 16
identity unknown_level = 17
identity not_configured = 18
identity usage = 19
identity sentry_flush_timeout = 20
identity (pg_error code constraint) = 0
identity (external text) = 0

pub data Error : Type 0 where
  sentinel : Cause → Error
  wrap : String → Error → Error
  -- fmt.Errorf("%w: %s", cause, detail)
  detailed : Cause → String → Error
  -- echo.NewHTTPError(status, message), and the same with .Wrap(err)
  http : ℕ → String → Error
  http_wrap : ℕ → String → Error → Error

abbrev pub cause : Error → Cause
cause (sentinel c) = c
cause (wrap s e) = cause e
cause (detailed c s) = c
cause (http n s) = external s
cause (http_wrap n s e) = cause e

-- errors.Is(err, target) at a sentinel
abbrev pub is : Error → Cause → Bool
is e c = nat_eq (identity (cause e)) (identity c)

pub data Result {ℓ} (A : Type ℓ) : Type ℓ where
  ok : A → Result A
  err : Error → Result A

abbrev pub map_err {ℓ} : {A : Type ℓ} → (Error → Error) → Result A → Result A
map_err f (ok a) = ok a
map_err f (err e) = err (f e)
