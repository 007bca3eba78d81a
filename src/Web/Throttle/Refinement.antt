-- ===== src/Web/Throttle/Refinement.antt =====
-- The throttle on the table against a log of times for each key.
use go_bootstrap.Prelude.{
  ℕ, ◌+◌, ◌≤◌, String, ◌≡◌, refl, sym, ◌∙◌, Bool, ◌&&◌, List, [], ◌∷◌, ◌==◌, arith, if◌then◌else◌,
  ltb, leb,
}
use go_bootstrap.Errors.{ok}
use go_bootstrap.Store.{Store}
use go_bootstrap.Platform.{Platform}
use go_bootstrap.Web.Throttle.{
  throttle_limit, throttle_window, throttle_blocked, throttle_fail, throttle_reset,
}
use go_bootstrap.Web.Throttle.Window.{
  recent, IsQuiet, throttle_blocked_lem, throttle_fail-failed, throttle_reset-cleared,
  recent-throttle_fail, recent-throttle_reset,
}

-- What can happen to the throttle: an attempt, a reset, and time that goes by.
pub data Call : Type 0 where
  to_fail : (key : String) → Call
  to_reset : (key : String) → Call
  to_wait : (time : ℕ) → Call

-- the store behind some calls
unfoldable pub run : List Call → Store → Store
run [] s = s
run (to_fail key ∷ calls) s = run calls (throttle_fail key s).1
run (to_reset key ∷ calls) s = run calls (throttle_reset key s).1
run (to_wait time ∷ calls) s = run calls (record s { db_now = s.db_now + time })

-- The specification: a clock, and for each key the times of its attempts, which nothing prunes.
pub record Log : Type 0 where
  pub now : ℕ
  pub times : String → List ℕ

abbrev pub empty_log : ℕ → Log
empty_log now = record { now = now; times = λ key. [] }

abbrev pub replay : List Call → Log → Log
replay [] log = log
replay (to_fail key ∷ calls) log =
    replay calls
      (record log { times = λ k. if key == k then log.now ∷ log.times k else log.times k })
replay (to_reset key ∷ calls) log =
    replay calls (record log { times = λ k. if key == k then [] else log.times k })
replay (to_wait time ∷ calls) log = replay calls (record log { now = log.now + time })

-- the times whose window has not ended
abbrev pub in_window : ℕ → List ℕ → ℕ
in_window now [] = 0
in_window now (at ∷ l) = (if ltb now (at + throttle_window) then 1 else 0) + in_window now l

record Refines (s : Store) (log : Log) : Type 0 where
  quiet : IsQuiet s
  clock : s.db_now ≡ log.now
  counts :
      (key : String) (later : ℕ)
      → s.db_now ≤ later
      → recent key later s.tables.attempts ≡ in_window later (log.times key)

in_window-if :
    (b : Bool) (now later : ℕ) (l : List ℕ)
    → in_window later (if b then now ∷ l else l)
      ≡ in_window later l + (if b && ltb later (now + throttle_window) then 1 else 0)
in_window-if b now later l = ground arith

fail-Refines :
    (key : String) (s : Store) (log : Log)
    → Refines s log
    → Refines
        (throttle_fail key s).1
        (record log { times = λ k. if key == k then log.now ∷ log.times k else log.times k })
fail-Refines key s log r =
    let same = throttle_fail-failed key s r.quiet in
    record {
      quiet = rw same (record { all = r.quiet.all });
      clock = rw same r.clock;
      counts = λ k later h.
          recent-throttle_fail key k later s r.quiet (rw same at h)
          ∙ rw (r.counts k later (rw same at h), r.clock)
              (sym (in_window-if (key == k) log.now later (log.times k)));
    }

in_window-reset :
    (b : Bool) (later : ℕ) (l : List ℕ)
    → in_window later (if b then [] else l) ≡ (if b then 0 else in_window later l)
in_window-reset b later l = ground arith

reset-Refines :
    (key : String) (s : Store) (log : Log)
    → Refines s log
    → Refines
        (throttle_reset key s).1
        (record log { times = λ k. if key == k then [] else log.times k })
reset-Refines key s log r =
    let same = throttle_reset-cleared key s r.quiet in
    record {
      quiet = rw same (record { all = r.quiet.all });
      clock = rw same r.clock;
      counts = λ k later h.
          recent-throttle_reset key k later s r.quiet
          ∙ rw (r.counts k later (rw same at h))
              (sym (in_window-reset (key == k) later (log.times k)));
    }

wait-Refines :
    (time : ℕ) (s : Store) (log : Log)
    → Refines s log
    → Refines (record s { db_now = s.db_now + time }) (record log { now = log.now + time })
wait-Refines time s log r = record {
  quiet = record { all = r.quiet.all };
  clock = rw r.clock refl;
  counts = λ k later h. r.counts k later (omega arith);
}

run-Refines :
    (calls : List Call) (s : Store) (log : Log)
    → Refines s log
    → Refines (run calls s) (replay calls log)
unfolding run
run-Refines [] s log r = r
run-Refines (to_fail key ∷ calls) s log r = run-Refines calls _ _ (fail-Refines key s log r)
run-Refines (to_reset key ∷ calls) s log r = run-Refines calls _ _ (reset-Refines key s log r)
run-Refines (to_wait time ∷ calls) s log r = run-Refines calls _ _ (wait-Refines time s log r)

-- From an empty table, where no call of the driver fails, and after any attempts, resets and waits, a
-- key is blocked exactly when five of the times that the log has for it stand in their window: the
-- table's pruning, its order and the attempts of other keys do not show.
pub throttle_blocked-replay :
    (p : Platform) (key : String) (calls : List Call) (s : Store)
    → IsQuiet s
    → s.tables.attempts ≡ []
    → (throttle_blocked p key (run calls s)).0 ≡ (
        let log = replay calls (empty_log s.db_now) in
        ok (leb throttle_limit (in_window log.now (log.times key))))
throttle_blocked-replay p key calls s q h =
    let r =
      run-Refines calls s (empty_log s.db_now)
        (record { quiet = q; clock = refl; counts = λ k later _. rw h refl }) in
    rw
      (
        throttle_blocked_lem p key (run calls s) r.quiet,
        r.counts key (run calls s).db_now (omega arith),
        r.clock,
      )
      refl
