-- ===== src/Web/Throttle.antt =====
-- web/throttle.go. The generated variants of web/conn.gen.go are the same functions on the pool.
pub mod Window
pub mod Refinement
pub mod Overshoot
pub mod Keeping
use go_bootstrap.Prelude.{
  ℕ, ◌+◌, ◌*◌, String, Bool, not, ◌&&◌, Option, none, List, [], ◌∷◌, ◌++◌, ◌==◌, ltb, leb, keep,
  length,
}
use go_bootstrap.Exec.{Exec, pure, lift, wrapping, ◌>>=◌, ◌>>◌}
use go_bootstrap.Store.{Attempt, Store, Statement, query}
use go_bootstrap.Platform.{Platform}
use go_bootstrap.Db.{Command, delete_rows, insert_rows, exec}

abbrev pub throttle_limit : ℕ
throttle_limit = 5

-- 15 minutes, in microseconds
abbrev pub throttle_window : ℕ
throttle_window = 900000000

-- key = $1 AND attempted_at > now() - make_interval(secs => $2), without the subtraction
unfoldable pub is_recent : String → ℕ → Attempt → Bool
is_recent key now a = a.key == key && ltb now (a.attempted_at + throttle_window)

unfoldable pub count_attempts : String → Statement ℕ
count_attempts key now t =
    (record { items = length (keep (is_recent key now) t.attempts) ∷ []; broken = none }, t)

unfoldable pub throttle_blocked : Platform → String → Exec Store Bool
throttle_blocked p key = do
  rows ← wrapping "counting throttle attempts" (query (count_attempts key))
  count ← wrapping "collecting throttle count" (lift (p.collect_exactly_one_row ℕ rows))
  pure (leb throttle_limit count)

-- attempted_at < now() - make_interval(secs => $1)
unfoldable pub is_stale : ℕ → Attempt → Bool
is_stale now a = ltb (a.attempted_at + throttle_window) now

unfoldable pub prune_attempts : Command
prune_attempts now t = (
  record { verb = delete_rows; rows_affected = length (keep (is_stale now) t.attempts) },
  record t { attempts = keep (λ a. not (is_stale now a)) t.attempts },
)

-- attempted_at has the default now().
unfoldable pub add_attempt : String → Command
add_attempt key now t = (
  record { verb = insert_rows; rows_affected = 1 },
  record t { attempts = t.attempts ++ record { key = key; attempted_at = now } ∷ [] },
)

unfoldable pub throttle_fail : String → Exec Store (Unit {0})
throttle_fail key = do
  wrapping "pruning throttle attempts" (exec prune_attempts)
  wrapping "recording throttle attempt" (exec (add_attempt key))
  pure tt

unfoldable pub clear_attempts : String → Command
clear_attempts key now t = (
  record {
    verb = delete_rows;
    rows_affected = length (keep (λ (a : Attempt). a.key == key) t.attempts);
  },
  record t { attempts = keep (λ a. not (a.key == key)) t.attempts },
)

unfoldable pub throttle_reset : String → Exec Store (Unit {0})
throttle_reset key = do wrapping "clearing throttle attempts" (exec (clear_attempts key)); pure tt
