-- ===== src/Jobs/Worker.antt =====
-- The worker of the reset email.
use go_bootstrap.Prelude.{suc, String, ◌≡◌, refl, []}
use go_bootstrap.Errors.{ok}
use go_bootstrap.Store.{PasswordResetEmailArgs, Store, no_fault}
use go_bootstrap.Platform.{Platform}
use go_bootstrap.Db.Queries.{only}
use go_bootstrap.Auth.Users.Signin.{matching, by_email_lem}
use go_bootstrap.Auth.Reset.{create_password_reset}
use go_bootstrap.Mailer.{Sender}
use go_bootstrap.Jobs.{work}

module _ (p : Platform) (outbox : Sender) (base_url : String) (args : PasswordResetEmailArgs) where
  -- Where the call does not fail and no user has the job's email any more, the job succeeds, sends
  -- nothing and changes no table.
  pub work_vanished :
      (s : Store)
      → s.faults s.calls ≡ no_fault
      → matching p args.email s ≡ []
      → work p outbox base_url args s ≡ (ok tt, record s { calls = suc s.calls })
  unfolding work create_password_reset only
  work_vanished s quiet gone = rw (by_email_lem p args.email s quiet, gone) refl
