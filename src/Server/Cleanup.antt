-- ===== src/Server/Cleanup.antt =====
-- What server.go opens it closes, the last opened first, on every way out of run.
use go_bootstrap.Prelude.{
  ◌≡◌, ap, ◌∙◌, ◌⊎◌, inl, inr, refl, Bool, true, false, Option, none, some, List, [], ◌∷◌,
}
use go_bootstrap.Prelude.Text.{◌+++◌, is_empty}
use go_bootstrap.Errors.{Error, wrap, map_err, Result, ok, err}
use go_bootstrap.Exec.{continue}
use go_bootstrap.Env.{Env}
use go_bootstrap.Db.Pool.{no_pools, configure, configure-Outcome}
use go_bootstrap.Server.{
  Resource, traces, sentry, pool, Event, opened, closed, outbox_swapped, jobs_configured,
  jobs_started, flows_mounted, drained, jobs_stopped, listening, Calls, Log, Run, happens, closing,
  listen_addr, configure_mail, serve_until_signal, with_mail, with_pool, made_pool, configure_db,
  with_sentry, with_traces, run,
}

-- The resources that are open behind a log, the last opened first; none where a resource was closed that
-- was not the last opened of those that were open.
abbrev pop : Resource → Option (List Resource) → Option (List Resource)
pop r none = none
pop r (some []) = none
pop traces (some (traces ∷ rs)) = some rs
pop traces (some (sentry ∷ rs)) = none
pop traces (some (pool ∷ rs)) = none
pop sentry (some (traces ∷ rs)) = none
pop sentry (some (sentry ∷ rs)) = some rs
pop sentry (some (pool ∷ rs)) = none
pop pool (some (traces ∷ rs)) = none
pop pool (some (sentry ∷ rs)) = none
pop pool (some (pool ∷ rs)) = some rs

abbrev push : Resource → Option (List Resource) → Option (List Resource)
push r none = none
push r (some rs) = some (r ∷ rs)

abbrev effect : Event → Option (List Resource) → Option (List Resource)
effect (opened r) rs = push r rs
effect (closed r) rs = pop r rs
effect outbox_swapped rs = rs
effect jobs_configured rs = rs
effect jobs_started rs = rs
effect flows_mounted rs = rs
effect drained rs = rs
effect jobs_stopped rs = rs
effect (listening addr) rs = rs

abbrev pub open_behind : Log → Option (List Resource)
open_behind [] = some []
open_behind (event ∷ log) = effect event (open_behind log)

-- code behind which the same resources are open as before it
abbrev Balanced : Run → Type 0
Balanced m =
    (log : Log) (rs : List Resource) → open_behind log ≡ some rs → open_behind (m log).1 ≡ some rs

continue-Balanced :
    {A : Type 0} (r : Result A) (next : A → Run) (log : Log) {rs : List Resource}
    → open_behind log ≡ some rs
    → ((a : A) → Balanced (next a))
    → open_behind (continue r next log).1 ≡ some rs
continue-Balanced (ok a) next log h k = k a log _ h
continue-Balanced (err e) next log h k = h

pop-push : (r : Resource) (rs : List Resource) → pop r (some (r ∷ rs)) ≡ some rs
pop-push traces rs = refl
pop-push sentry rs = refl
pop-push pool rs = refl

-- A resource that is opened before the code and closed by its defer leaves no trace.
closing-Balanced :
    (r : Resource) (body : Run) (log : Log) (rs : List Resource)
    → Balanced body
    → open_behind log ≡ some rs
    → open_behind (closing r body (opened r ∷ log)).1 ≡ some rs
closing-Balanced r body log rs h k = rw (h (opened r ∷ log) (r ∷ rs) (rw k refl)) (pop-push r rs)

module _ (calls : Calls) where
  configure_mail-Balanced :
      (cfg : Env) (logs : Bool)
      → is_empty cfg.mail_from ≡ logs
      → Balanced (configure_mail calls cfg)
  unfolding configure_mail
  configure_mail-Balanced cfg true h log rs k = rw (configure_mail, h) k
  configure_mail-Balanced cfg false h log rs k =
      rw (configure_mail, h)
        (continue-Balanced (map_err (wrap "configuring ses mailer") calls.ses)
          (λ _. happens outbox_swapped) log k (λ _ log rs k. k))

  serve_until_signal-Balanced : (cfg : Env) → Balanced (serve_until_signal calls cfg)
  unfolding serve_until_signal
  serve_until_signal-Balanced cfg log rs k =
      continue-Balanced (map_err (wrap ("listening on " +++ listen_addr cfg)) calls.listen)
        (λ _ log. (ok tt, jobs_stopped ∷ drained ∷ log)) (listening (listen_addr cfg) ∷ log) k
        (λ _ log rs k. k)

  with_mail-Balanced : (cfg : Env) → Balanced (with_mail calls cfg)
  unfolding with_mail
  with_mail-Balanced cfg log rs k =
      continue-Balanced (map_err (wrap "configuring jobs") calls.jobs_configure) _ log k
        (λ _ log rs k.
          continue-Balanced (map_err (wrap "starting jobs") calls.jobs_start) _ _ k (λ _ log rs k.
            continue-Balanced (map_err (wrap "configuring flows") calls.flows) _ _ k
              (λ _ log rs k. serve_until_signal-Balanced cfg _ rs k)))

  with_pool-Balanced : (cfg : Env) → Balanced (with_pool calls cfg)
  unfolding with_pool
  with_pool-Balanced cfg log rs k =
      continue-Balanced (configure_mail calls cfg log).0 _ _
        (configure_mail-Balanced cfg _ refl log rs k) (λ _. with_mail-Balanced cfg)

  -- Where the ping does not fail, db.Configure opens the pool and succeeds, or fails without one.
  configure_db-cases :
      (log : Log)
      → calls.db.ping ≡ ok tt
      → (configure_db calls log ≡ (ok tt, opened pool ∷ log))
        ⊎ ((e : Error) × (configure_db calls log ≡ (err e, log)))
  unfolding configure_db made_pool
  configure_db-cases log up = elim (configure-Outcome calls.db "" no_pools) [
    | inl (made, _) ↦ inl (ap (λ r. (r.0, made_pool calls r.1.open_pools log)) made)
    | inr (e, failed, _, inl none') ↦ inr (
      e,
      ap (λ r. (r, made_pool calls (configure calls.db "" no_pools).1.open_pools log)) failed
          ∙ ap (λ dsns. (err e, made_pool calls dsns log)) none',
    )
    | inr (e, failed, _, inr (_, (d, down, _))) ↦ absurd (cc (up, down))
  ]

  with_sentry-Balanced : (cfg : Env) → calls.db.ping ≡ ok tt → Balanced (with_sentry calls cfg)
  unfolding with_sentry
  with_sentry-Balanced cfg up log rs k =
      let behind : Result (Unit {0}) × Log → Option (List Resource) =
        λ r. open_behind (continue r.0 (λ _. closing pool (with_pool calls cfg)) r.1).1 in
      elim (configure_db-cases log up) [
        | inl made ↦
            ap behind made
            ∙ closing-Balanced pool (with_pool calls cfg) log rs (with_pool-Balanced cfg) k
        | inr (e, failed) ↦ ap behind failed ∙ k
      ]

  with_traces-Balanced : (cfg : Env) → calls.db.ping ≡ ok tt → Balanced (with_traces calls cfg)
  unfolding with_traces
  with_traces-Balanced cfg up log rs k =
      continue-Balanced (map_err (wrap "configuring sentry") calls.sentry') _ log k (λ _ log rs k.
        closing-Balanced sentry (with_sentry calls cfg) log rs (with_sentry-Balanced cfg up) k)

  -- Unless the ping of db.Configure fails, and whatever every other call of the start and of the server
  -- returns, run leaves nothing open: each of the traces, Sentry and the pool that was opened is closed,
  -- exactly once, and the last opened first, so that the pool is closed before Sentry is flushed and Sentry
  -- before the traces.
  pub run-Balanced : calls.db.ping ≡ ok tt → open_behind (run calls []).1 ≡ some []
  unfolding run
  run-Balanced up = continue-Balanced calls.load _ [] refl (λ cfg log rs k.
      continue-Balanced calls.logging _ log k (λ _ log rs k.
        continue-Balanced (map_err (wrap "configuring telemetry") calls.telemetry) _ log k
          (λ _ log rs k.
            closing-Balanced traces (with_traces calls cfg) log rs (with_traces-Balanced cfg up)
              k)))
