-- ===== src/Jobs/Examples.antt =====
-- The theorems about jobs at a concrete platform and store.
use go_bootstrap.Prelude.{ℕ, suc, String, ◌≡◌, refl, true, none, some, List, []}
use go_bootstrap.Store.{PasswordResetEmailArgs}
use go_bootstrap.Store.Demo.{demo_store}
use go_bootstrap.Platform.Demo.{demo}
use go_bootstrap.Auth.Users.{same_email}
use go_bootstrap.Auth.Users.Signin.{matching}
use go_bootstrap.Jobs.{JobRow}

abbrev ada_job : PasswordResetEmailArgs
ada_job = record { email = "ada@example.com" }

abbrev eve_job : PasswordResetEmailArgs
eve_job = record { email = "eve@example.com" }

eve_gone : matching demo "eve@example.com" demo_store ≡ []
unfolding same_email go_bootstrap.Prelude.Text.trim_space
eve_gone = refl

abbrev demo_job : JobRow
demo_job = record {
  id = 7;
  kind = "password_reset_email";
  attempt = 1;
  max_attempts = 3;
  queue = "default";
}
