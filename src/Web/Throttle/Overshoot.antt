-- ===== src/Web/Throttle/Overshoot.antt =====
-- Requests for one key that run at once, in web/handlers_auth.go: each calls ThrottleBlockedTx, and
-- ThrottleFailTx later, with other requests between the two, since the calls share no transaction. The
-- attempts that count are a number here: Web/Throttle/Window has what the three calls make of it.
use go_bootstrap.Prelude.{ℕ, suc, ◌+◌, ◌≤◌, ◌<◌, ◌≡◌, false, leb, arith}
use go_bootstrap.Web.Throttle.{throttle_limit}

pub record Traffic : Type 0 where
  -- the attempts of the key in the window
  pub counted : ℕ
  -- the requests that were let through and have not yet recorded a failure or succeeded
  pub let_through : ℕ

-- The steps of the requests, of which at most `at_once` are let through and not finished.
pub data Step (at_once : ℕ) : Traffic → Traffic → Type 0 where
  pass :
      (n m : ℕ)
      → leb throttle_limit n ≡ false
      → m < at_once
      → Step at_once
          (record { counted = n; let_through = m })
          (record { counted = n; let_through = suc m })
  fail :
      (n m : ℕ)
      → Step at_once
          (record { counted = n; let_through = suc m })
          (record { counted = suc n; let_through = m })
  succeed :
      (n m : ℕ)
      → Step at_once
          (record { counted = n; let_through = suc m })
          (record { counted = 0; let_through = m })
  -- a failure that is not of the credentials, or a call of the throttle that fails
  break_off :
      (n m : ℕ)
      → Step at_once
          (record { counted = n; let_through = suc m })
          (record { counted = n; let_through = m })
  -- an attempt leaves the window
  age :
      (n m : ℕ)
      → Step at_once
          (record { counted = suc n; let_through = m })
          (record { counted = n; let_through = m })

pub data Reach (at_once : ℕ) : Traffic → Type 0 where
  here : Reach at_once (record { counted = 0; let_through = 0 })
  next : {s t : Traffic} → Reach at_once s → Step at_once s t → Reach at_once t

abbrev Within : ℕ → Traffic → Type 0
Within at_once s = s.counted + s.let_through < throttle_limit + at_once

Step-Within : {at_once : ℕ} {s t : Traffic} → Step at_once s t → Within at_once s → Within at_once t
Step-Within (pass n m free room) h = ground (arith, free, room)
Step-Within (fail n m) h = omega (arith, h)
Step-Within (succeed n m) h = omega (arith, h)
Step-Within (break_off n m) h = omega (arith, h)
Step-Within (age n m) h = omega (arith, h)

Reach-Within : {at_once : ℕ} {s : Traffic} → Reach at_once s → 1 ≤ at_once → Within at_once s
Reach-Within here h = omega (arith, h)
Reach-Within (next r step) h = Step-Within step (Reach-Within r h)

-- Where at most k requests for a key run at once, fewer than 5 + k failed attempts of it ever stand in the
-- window, in every interleaving of the checks, the failures, the successes and the passing of time: a
-- check that is older than another request's failure lets no more than those k - 1 through.
pub counted-bounds :
    (at_once : ℕ) (s : Traffic)
    → 1 ≤ at_once
    → Reach at_once s
    → s.counted < throttle_limit + at_once
counted-bounds at_once s h r = omega (arith, Reach-Within r h)
