-- ===== src/Web/Throttle/Keeping.antt =====
-- The throttle and the queue of jobs leave the users as they are.
use go_bootstrap.Prelude.{String, refl, List}
use go_bootstrap.Errors.{wrap, map_err}
use go_bootstrap.Exec.Keeping.{Keeps, continue-Shows}
use go_bootstrap.Store.{User, PasswordResetEmailArgs, query}
use go_bootstrap.Platform.{Platform}
use go_bootstrap.Db.{exec}
use go_bootstrap.Db.Keeping.{in_store, query-Keeps, exec-Keeps}
use go_bootstrap.Auth.Users.Identity.{seen}
use go_bootstrap.Jobs.{add_job, insert_standalone}
use go_bootstrap.Web.Throttle.{
  count_attempts, throttle_blocked, prune_attempts, add_attempt, throttle_fail, clear_attempts,
  throttle_reset,
}

module _ {V : Type 0} (show : List User → V) where
  pub throttle_blocked-Keeps :
      (p : Platform) (key : String) → Keeps (in_store (seen show)) (throttle_blocked p key)
  unfolding throttle_blocked count_attempts
  throttle_blocked-Keeps p key s =
      continue-Shows (in_store (seen show))
        (map_err (wrap "counting throttle attempts") (query (count_attempts key) s).0) _ _
        (query-Keeps (seen show) (count_attempts key) (λ now t. refl) s)
        (λ rows s.
          continue-Shows (in_store (seen show)) (map_err (wrap "collecting throttle count") _) _ s
            refl (λ count s. refl))

  pub throttle_fail-Keeps : (key : String) → Keeps (in_store (seen show)) (throttle_fail key)
  unfolding throttle_fail prune_attempts add_attempt
  throttle_fail-Keeps key s =
      continue-Shows (in_store (seen show))
        (map_err (wrap "pruning throttle attempts") (exec prune_attempts s).0) _ _
        (exec-Keeps (seen show) prune_attempts (λ now t. refl) s)
        (λ tag s.
          continue-Shows (in_store (seen show))
            (map_err (wrap "recording throttle attempt") (exec (add_attempt key) s).0) _ _
            (exec-Keeps (seen show) (add_attempt key) (λ now t. refl) s) (λ tag s. refl))

  pub throttle_reset-Keeps : (key : String) → Keeps (in_store (seen show)) (throttle_reset key)
  unfolding throttle_reset clear_attempts
  throttle_reset-Keeps key s =
      continue-Shows (in_store (seen show))
        (map_err (wrap "clearing throttle attempts") (exec (clear_attempts key) s).0) _ _
        (exec-Keeps (seen show) (clear_attempts key) (λ now t. refl) s) (λ tag s. refl)

  pub insert_standalone-Keeps :
      (args : PasswordResetEmailArgs) → Keeps (in_store (seen show)) (insert_standalone args)
  unfolding insert_standalone add_job
  insert_standalone-Keeps args s =
      continue-Shows (in_store (seen show))
        (map_err (wrap "enqueueing standalone job") (exec (add_job args) s).0) _ _
        (exec-Keeps (seen show) (add_job args) (λ now t. refl) s) (λ tag s. refl)
