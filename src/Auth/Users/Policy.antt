-- ===== src/Auth/Users/Policy.antt =====
-- The password policy of ValidatePassword.
use Prim.Native.String.{count, len}
use go_bootstrap.Prelude.{◌≤◌, ◌<◌, String, ◌≡◌, ◌↔◌, true, false, Option, none, some, arith}
use go_bootstrap.Prelude.Text.{is_empty}
use go_bootstrap.Errors.{Error, sentinel, password_required, password_too_short, password_too_long}
use go_bootstrap.Auth.Users.{validate_password, password_min_length, password_max_bytes}

-- What the policy says of a password: the error for each way to break it.
pub record Follows (password : String) (verdict : Option Error) : Type 0 where
  pub accepted : (verdict ≡ none) ↔ (
      (is_empty password ≡ false)
      × (password_min_length ≤ count password)
      × (len password ≤ password_max_bytes))
  pub required : (verdict ≡ some (sentinel password_required)) ↔ (is_empty password ≡ true)
  pub too_short :
      (verdict ≡ some (sentinel password_too_short))
      ↔ ((is_empty password ≡ false) × (count password < password_min_length))
  pub too_long : (verdict ≡ some (sentinel password_too_long)) ↔ (
      (is_empty password ≡ false)
      × (password_min_length ≤ count password)
      × (password_max_bytes < len password))

-- `validate_password` accepts a password exactly when it is not empty, has at least 8 runes and at
-- most 512 bytes; each of the three errors is returned exactly when its rule is the first broken one.
pub validate_password-Follows : (password : String) → Follows password (validate_password password)
unfolding validate_password
validate_password-Follows password = record {
  accepted = (λ h. ground arith, λ h. ground arith);
  required = (λ h. ground arith, λ h. ground arith);
  too_short = (λ h. ground arith, λ h. ground arith);
  too_long = (λ h. ground arith, λ h. ground arith);
}
