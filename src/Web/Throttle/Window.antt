-- ===== src/Web/Throttle/Window.antt =====
-- The throttle counts the attempts of a key in a sliding window, and its pruning cannot be seen.
use go_bootstrap.Prelude.{
  ℕ, zero, suc, ◌+◌, ◌≤◌, String, ◌≡◌, refl, ap, ◌∙◌, not, ◌&&◌, List, [], ◌∷◌, ◌++◌, ◌==◌, eq_iff,
  eq_refl, arith, if◌then◌else◌, ltb, leb, keep, length, keep-append, length-append,
}
use go_bootstrap.Errors.{ok}
use go_bootstrap.Store.{Attempt, Store, no_fault}
use go_bootstrap.Platform.{Platform}
use go_bootstrap.Db.Queries.{query_ok, exec_ok}
use go_bootstrap.Web.Throttle.{
  throttle_limit, throttle_window, is_recent, count_attempts, throttle_blocked, is_stale,
  prune_attempts, add_attempt, throttle_fail, clear_attempts, throttle_reset,
}

-- the attempts of a key that count at a time
abbrev pub recent : String → ℕ → List Attempt → ℕ
recent key now l = length (keep (is_recent key now) l)

-- What is pruned at a time counts neither then nor later.
recent-prune :
    (key : String) (now later : ℕ) (l : List Attempt)
    → now ≤ later
    → recent key later (keep (λ a. not (is_stale now a)) l) ≡ recent key later l
unfolding is_recent is_stale
recent-prune key now later [] h = refl
recent-prune key now later (a ∷ l) h = ground (arith, recent-prune key now later l h)

pub recent-clear :
    (key other : String) (now : ℕ) (l : List Attempt)
    → recent other now (keep (λ a. not (a.key == key)) l)
      ≡ (if key == other then 0 else recent other now l)
unfolding is_recent
recent-clear key other now [] = ground arith
recent-clear key other now (a ∷ l) =
    ground
      (arith, recent-clear key other now l, eq_iff a.key key, eq_iff a.key other, eq_iff key other)

-- The tables and the calls behind a chain of calls that do not fail.
pub record IsQuiet (s : Store) : Type 0 where
  pub all : (n : ℕ) → s.faults n ≡ no_fault

-- Where no call fails, a key is blocked exactly when it has at least five attempts in the window.
pub throttle_blocked_lem :
    (p : Platform) (key : String) (s : Store)
    → IsQuiet s
    → throttle_blocked p key s ≡ (
      ok (leb throttle_limit (recent key s.db_now s.tables.attempts)),
      record s { calls = suc s.calls },
    )
unfolding throttle_blocked
throttle_blocked_lem p key s q = rw (
  query_ok (count_attempts key) s (recent key s.db_now s.tables.attempts ∷ []) s.tables
      (q.all s.calls) (unfold count_attempts in refl),
  p.exactly_one_single ℕ (recent key s.db_now s.tables.attempts),
)

-- the attempts that a recorded attempt leaves
abbrev pub failed : String → Store → List Attempt
failed key s =
    keep (λ a. not (is_stale s.db_now a)) s.tables.attempts
    ++ record { key = key; attempted_at = s.db_now } ∷ []

pub throttle_fail-failed :
    (key : String) (s : Store)
    → IsQuiet s
    → throttle_fail key s ≡ (
      ok tt,
      record s { tables = record s.tables { attempts = failed key s }; calls = suc (suc s.calls) },
    )
unfolding throttle_fail prune_attempts add_attempt
throttle_fail-failed key s q = rw (
  exec_ok prune_attempts s (ap (λ f. f.at_call) (q.all s.calls)),
  exec_ok (add_attempt key)
      (record s { tables = (prune_attempts s.db_now s.tables).1; calls = suc s.calls })
      (ap (λ f. f.at_call) (q.all (suc s.calls))),
)

recent-single :
    (key other : String) (at later : ℕ)
    → recent other later (record { key = key; attempted_at = at } ∷ [])
      ≡ (if key == other && ltb later (at + throttle_window) then 1 else 0)
unfolding is_recent
recent-single key other at later = ground arith

-- Where no call fails, recording an attempt adds one to the count of its key, at every time from now
-- until its window ends, and changes no other count from now on.
pub recent-throttle_fail :
    (key other : String) (later : ℕ) (s : Store)
    → IsQuiet s
    → s.db_now ≤ later
    → recent other later (throttle_fail key s).1.tables.attempts
      ≡ recent other later s.tables.attempts
        + (if key == other && ltb later (s.db_now + throttle_window) then 1 else 0)
recent-throttle_fail key other later s q h =
    let kept = keep (λ a. not (is_stale s.db_now a)) s.tables.attempts in
    let added : List Attempt = record { key = key; attempted_at = s.db_now } ∷ [] in
    rw (throttle_fail-failed key s q) (
      omega (
        arith,
        ap length (keep-append (is_recent other later) kept added),
        length-append {0} (keep (is_recent other later) kept) (keep (is_recent other later) added),
        recent-prune other s.db_now later s.tables.attempts h,
        recent-single key other s.db_now later,
      ))

pub throttle_reset-cleared :
    (key : String) (s : Store)
    → IsQuiet s
    → throttle_reset key s
      ≡ (ok tt, record s { tables = (clear_attempts key s.db_now s.tables).1; calls = suc s.calls })
unfolding throttle_reset
throttle_reset-cleared key s q =
    rw (exec_ok (clear_attempts key) s (ap (λ f. f.at_call) (q.all s.calls)))

-- Where no call fails, a reset takes every attempt of its key away and none of another's.
pub recent-throttle_reset :
    (key other : String) (now : ℕ) (s : Store)
    → IsQuiet s
    → recent other now (throttle_reset key s).1.tables.attempts
      ≡ (if key == other then 0 else recent other now s.tables.attempts)
unfolding throttle_reset clear_attempts
recent-throttle_reset key other now s q =
    rw (exec_ok (clear_attempts key) s (ap (λ f. f.at_call) (q.all s.calls)))
      (recent-clear key other now s.tables.attempts)

-- the store behind a number of attempts of one key, all recorded at one time
unfoldable pub fail_times : ℕ → String → Store → Store
fail_times zero key s = s
fail_times (suc n) key s = fail_times n key (throttle_fail key s).1

fail_times-IsQuiet :
    (key : String) (s : Store)
    → IsQuiet s
    → IsQuiet (throttle_fail key s).1 × ((throttle_fail key s).1.db_now ≡ s.db_now)
fail_times-IsQuiet key s q = rw (throttle_fail-failed key s q) (record { all = q.all }, refl)

recent-throttle_fail_self :
    (key : String) (s : Store)
    → IsQuiet s
    → recent key s.db_now (throttle_fail key s).1.tables.attempts
      ≡ recent key s.db_now s.tables.attempts + 1
recent-throttle_fail_self key s q =
    ground (arith, recent-throttle_fail key key s.db_now s q (omega arith), eq_refl key)

fail_times_lem :
    (n : ℕ) (key : String) (s : Store)
    → IsQuiet s
    → (recent key s.db_now (fail_times n key s).tables.attempts
        ≡ recent key s.db_now s.tables.attempts + n)
      × IsQuiet (fail_times n key s)
      × ((fail_times n key s).db_now ≡ s.db_now)
unfolding fail_times
fail_times_lem zero key s q = (omega arith, q, refl)
fail_times_lem (suc n) key s q =
    let (q', same) = fail_times-IsQuiet key s q in
    let (count, q'', same') = fail_times_lem n key (throttle_fail key s).1 q' in
    (omega (arith, rw same at count, recent-throttle_fail_self key s q), q'', same' ∙ same)

-- Where no call fails, a key that had `m` attempts in the window is blocked behind `n` more exactly
-- when `m + n` is at least five.
pub blocked-fail_times :
    (p : Platform) (n : ℕ) (key : String) (s : Store)
    → IsQuiet s
    → (throttle_blocked p key (fail_times n key s)).0
      ≡ ok (leb throttle_limit (recent key s.db_now s.tables.attempts + n))
blocked-fail_times p n key s q =
    let (count, quiet, same) = fail_times_lem n key s q in
    rw (throttle_blocked_lem p key (fail_times n key s) quiet, same, count) refl
