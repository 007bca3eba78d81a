-- ===== src/Jobs/Failures.antt =====
-- A job that fails at every attempt is reported once.
use go_bootstrap.Prelude.{ℕ, zero, suc, ◌+◌, ◌<◌, ◌≡◌, List, [], ◌∷◌, ◌++◌, arith}
use go_bootstrap.Errors.{Error}
use go_bootstrap.Jobs.{JobRow, Capture, capture_job_failure, handle_error}

-- the reports of the attempts from one on, as many as River makes, one error for each
unfoldable pub reports : JobRow → (ℕ → Error) → ℕ → ℕ → List Capture
reports job errors attempt zero = []
reports job errors attempt (suc n) =
    handle_error (record job { attempt = attempt }) (errors attempt)
    ++ reports job errors (suc attempt) n

early :
    (job : JobRow) (attempt : ℕ) (e : Error)
    → attempt < job.max_attempts
    → handle_error (record job { attempt = attempt }) e ≡ []
unfolding handle_error
early job attempt e h = ground arith

-- A job whose attempts all fail, from some attempt to the last that River makes, is reported once,
-- with the error and the number of its last attempt.
pub reports_once :
    (job : JobRow) (errors : ℕ → Error) (attempt n : ℕ)
    → attempt + n ≡ job.max_attempts
    → reports job errors attempt (suc n)
      ≡ capture_job_failure (record job { attempt = job.max_attempts }) (errors job.max_attempts) ""
        ∷ []
unfolding reports handle_error
reports_once job errors attempt zero h =
    let last : attempt ≡ job.max_attempts = omega arith in rw last (ground arith)
reports_once job errors attempt (suc n) h =
    rw (early job attempt (errors attempt) (omega arith))
      (reports_once job errors (suc attempt) n (omega arith))
