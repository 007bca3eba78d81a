-- ===== src/Jobs.antt =====
-- Package jobs (jobs/jobs.go, jobs/errors.go, jobs/password_reset_email.go). River's client is a
-- third party: an insert is a command that adds a row of river_job, and its stops are parameters.
pub mod Failures
pub mod Worker
mod Examples
use go_bootstrap.Prelude.{ℕ, String, Option, none, some, List, [], ◌∷◌, ◌++◌, if◌then◌else◌, ltb}
use go_bootstrap.Prelude.Text.{◌+++◌, is_empty}
use go_bootstrap.Errors.{Error, external, is, not_found, wrap, detailed, Result, ok, err, map_err}
use go_bootstrap.Exec.{Exec, pure, fail, wrapping, attempt, ◌>>=◌, ◌>>◌}
use go_bootstrap.Store.{User, PasswordResetEmailArgs, Message, Store}
use go_bootstrap.Platform.{Platform}
use go_bootstrap.Db.{Command, insert_rows, exec}
use go_bootstrap.Auth.Reset.{create_password_reset}
use go_bootstrap.Mailer.{Sender, send}

unfoldable pub add_job : PasswordResetEmailArgs → Command
add_job args now t =
    (record { verb = insert_rows; rows_affected = 1 }, record t { jobs = t.jobs ++ args ∷ [] })

unfoldable pub insert_standalone : PasswordResetEmailArgs → Exec Store (Unit {0})
insert_standalone args = do wrapping "enqueueing standalone job" (exec (add_job args)); pure tt

-- Configure, with what river.NewClient answers: it stores the client, here by the base URL that its
-- worker has. Client is nil until then.
unfoldable pub configure_jobs : Result (Unit {0}) → String → Exec (Option String) (Unit {0})
configure_jobs (err e) base_url client = (err (wrap "creating river client" e), client)
configure_jobs (ok u) base_url client = (ok tt, some base_url)

-- Start, with what Client.Start answers; none is the panic of a nil client.
unfoldable pub start_jobs : Result (Unit {0}) → Option String → Option (Result (Unit {0}))
start_jobs answer none = none
start_jobs answer (some base_url) = some (map_err (wrap "starting river client") answer)

-- What Client.Stop and Client.StopAndCancel answer, and what Stop makes of it.
unfoldable pub stop : Option Error → Option Error → Option Error
stop none cancelled = none
stop (some e) none = none
stop (some e) (some d) = some (wrap "cancelling running jobs" d)

-- the parts of rivertype.JobRow that the error handler reads
pub record JobRow : Type 0 where
  pub id : ℕ
  pub kind : String
  pub attempt : ℕ
  pub max_attempts : ℕ
  pub queue : String

-- What is reported to Sentry: the error, the job as its context, and the trace of a panic.
pub record Capture : Type 0 where
  pub error : Error
  pub job : JobRow
  pub panic_trace : Option String

unfoldable pub capture_job_failure : JobRow → Error → String → Capture
capture_job_failure job e trace = record {
  error = e;
  job = job;
  panic_trace = if is_empty trace then none else some trace;
}

-- The reports that HandleError and HandlePanic make.
unfoldable pub handle_error : JobRow → Error → List Capture
handle_error job e =
    if ltb job.attempt job.max_attempts then [] else capture_job_failure job e "" ∷ []

unfoldable pub handle_panic : JobRow → String → String → List Capture
handle_panic job value trace =
    capture_job_failure job (detailed (external "job panic") value) trace ∷ []

abbrev pub reset_link : String → String → String
reset_link base_url token = base_url +++ ("/password-reset/confirm?token=" +++ token)

unfoldable pub reset_message : String → String → String → Message
reset_message base_url email token = record {
  to = email;
  subject = "Reset your password";
  body =
      "A password reset was requested for this address.\n\nReset your password: "
      +++ (reset_link base_url token
          +++ "\n\nThe link expires in an hour. If you didn't ask for this, ignore this email.");
}

mail_token : Sender → String → String → Result (String × User) → Exec Store (Unit {0})
mail_token outbox base_url email (ok (token, user)) =
    send outbox (reset_message base_url email token)
mail_token outbox base_url email (err e) =
    if is e not_found then pure tt else fail (wrap "creating reset token" e)

-- The worker's Work.
unfoldable pub work : Platform → Sender → String → PasswordResetEmailArgs → Exec Store (Unit {0})
unfolding mail_token
work p outbox base_url args = do
  issued ← attempt (create_password_reset p args.email)
  mail_token outbox base_url args.email issued
