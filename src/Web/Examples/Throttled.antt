-- ===== src/Web/Examples/Throttled.antt =====
-- The throttle at a concrete store.
use go_bootstrap.Prelude.{arith, false, suc, ℕ, ◌+◌, ◌<◌, List, [], ◌∷◌, ◌≡◌, refl, leb}
use go_bootstrap.Errors.{ok}
use go_bootstrap.Store.Demo.{demo_tables, demo_store}
use go_bootstrap.Platform.Demo.{demo}
use go_bootstrap.Web.Throttle.{throttle_limit, throttle_blocked}
use go_bootstrap.Store.{Store}
use go_bootstrap.Web.Throttle.Overshoot.{pass, fail, Reach, here, next, counted-bounds}
use go_bootstrap.Web.Throttle.Refinement.{
  to_fail, to_reset, to_wait, Call, run, replay, empty_log, in_window, throttle_blocked-replay,
}
use go_bootstrap.Web.Throttle.Window.{IsQuiet}

demo-IsQuiet : IsQuiet demo_store
demo-IsQuiet = record { all = λ n. refl }

abbrev empty_store : Store
empty_store = record demo_store { tables = record demo_tables { attempts = [] } }

abbrev calls : List Call
calls =
    to_fail "k"
    ∷ to_fail "k"
    ∷ to_reset "j"
    ∷ to_wait 10
    ∷ to_fail "k"
    ∷ to_fail "k"
    ∷ to_fail "k"
    ∷ []

throttle_blocked-replay_example : (throttle_blocked demo "k" (run calls empty_store)).0 ≡ (
    let log = replay calls (empty_log 1000) in
    ok (leb throttle_limit (in_window log.now (log.times "k"))))
throttle_blocked-replay_example =
    throttle_blocked-replay demo "k" calls empty_store (record { all = λ n. refl }) refl

-- Four guesses fail one after another; two more are both checked before either is recorded.
guessed :
    (n : ℕ)
    → leb throttle_limit n ≡ false
    → Reach 2 (record { counted = n; let_through = 0 })
    → Reach 2 (record { counted = suc n; let_through = 0 })
guessed n h r = next (next r (pass n 0 h (omega arith))) (fail n 0)

raced : Reach 2 (record { counted = 6; let_through = 0 })
raced =
    let four = guessed 3 refl (guessed 2 refl (guessed 1 refl (guessed 0 refl here))) in
    next
      (next (next (next four (pass 4 0 refl (omega arith))) (pass 4 1 refl (omega arith)))
        (fail 4 1))
      (fail 5 0)

counted-bounds_example : 6 < throttle_limit + 2
counted-bounds_example =
    counted-bounds 2 (record { counted = 6; let_through = 0 }) (omega arith) raced
