-- ===== src/Server/Jobs.antt =====
-- The job workers in server.go: when they are stopped, and what stands before their start.
use go_bootstrap.Prelude.{String, List, ◌≡◌, refl, Bool, true, false, ◌&&◌, [], ◌∷◌, any}
use go_bootstrap.Prelude.Text.{◌+++◌, is_empty}
use go_bootstrap.Errors.{Error, wrap, map_err, Result, ok, err}
use go_bootstrap.Exec.{continue}
use go_bootstrap.Env.{Env}
use go_bootstrap.Db.Pool.{no_pools, configure}
use go_bootstrap.Server.{
  traces, sentry, pool, Event, opened, closed, outbox_swapped, jobs_configured, jobs_started,
  flows_mounted, drained, jobs_stopped, listening, Calls, Log, Run, happens, listen_addr,
  configure_mail, serve_until_signal, with_mail, with_pool, made_pool, configure_db, closing,
  with_sentry, with_traces, run,
}

abbrev pub is_ok {ℓ} : {A : Type ℓ} → Result A → Bool
is_ok (ok a) = true
is_ok (err e) = false

abbrev pub stops : Event → Bool
stops (opened r) = false
stops (closed r) = false
stops outbox_swapped = false
stops jobs_configured = false
stops jobs_started = false
stops flows_mounted = false
stops drained = false
stops jobs_stopped = true
stops (listening addr) = false

abbrev pub swaps : Event → Bool
swaps (opened r) = false
swaps (closed r) = false
swaps outbox_swapped = true
swaps jobs_configured = false
swaps jobs_started = false
swaps flows_mounted = false
swaps drained = false
swaps jobs_stopped = false
swaps (listening addr) = false

-- Each start of the workers has a swap of the outbox behind it in the log, that is, before it.
abbrev pub swapped_first : Log → Bool
swapped_first [] = true
swapped_first (opened r ∷ log) = swapped_first log
swapped_first (closed r ∷ log) = swapped_first log
swapped_first (outbox_swapped ∷ log) = swapped_first log
swapped_first (jobs_configured ∷ log) = swapped_first log
swapped_first (jobs_started ∷ log) = any swaps log && swapped_first log
swapped_first (flows_mounted ∷ log) = swapped_first log
swapped_first (drained ∷ log) = swapped_first log
swapped_first (jobs_stopped ∷ log) = swapped_first log
swapped_first (listening addr ∷ log) = swapped_first log

module _ (P : Result (Unit {0}) × Log → Type 0) {A : Type 0} where
  continue-follows :
      (r : Result A) (next : A → Run) (log : Log)
      → ((e : Error) → P (err e, log))
      → ((a : A) → P (next a log))
      → P (continue r next log)
  continue-follows (ok a) next log h k = k a
  continue-follows (err e) next log h k = h e

abbrev Told : Result (Unit {0}) × Log → Type 0
Told r = any stops r.1 ≡ is_ok r.0

-- code that stops the workers when it succeeds, and not before
abbrev Stops : Run → Type 0
Stops m = (log : Log) → any stops log ≡ false → Told (m log)

module _ (calls : Calls) where
  -- the mail's part: what holds when it fails, when it logs mail, and when it has swapped the outbox
  configure_mail-follows :
      (P : Result (Unit {0}) × Log → Type 0) (cfg : Env) (next : Run) (log : Log) (logs : Bool)
      → is_empty cfg.mail_from ≡ logs
      → ((e : Error) → P (err e, log))
      → (logs ≡ true → P (next log))
      → P (next (outbox_swapped ∷ log))
      → P (continue (configure_mail calls cfg log).0 (λ _. next) (configure_mail calls cfg log).1)
  unfolding configure_mail
  configure_mail-follows P cfg next log true h failed logged swapped =
      rw (configure_mail, h) (logged refl)
  configure_mail-follows P cfg next log false h failed logged swapped =
      rw (configure_mail, h) (swapping calls.ses)
    where
      swapping :
          (r : Result (Unit {0}))
          → P (
              continue
                (continue
                  (map_err (wrap "configuring ses mailer") r)
                  (λ _. happens outbox_swapped)
                  log).0
                (λ _. next)
                (continue
                  (map_err (wrap "configuring ses mailer") r)
                  (λ _. happens outbox_swapped)
                  log).1)
      swapping (ok u) = swapped
      swapping (err e) = failed _

  -- the same of db.Configure, which has made a pool or has not
  configure_db-follows :
      (P : Result (Unit {0}) × Log → Type 0) (next : Run) (log : Log)
      → ((e : Error) → P (err e, log))
      → ((e : Error) → P (err e, opened pool ∷ log))
      → P (next log)
      → P (next (opened pool ∷ log))
      → P (continue (configure_db calls log).0 (λ _. next) (configure_db calls log).1)
  unfolding configure_db made_pool
  configure_db-follows P next log failed left done made =
      made_behind (configure calls.db "" no_pools).0 (configure calls.db "" no_pools).1.open_pools
    where
      made_behind :
          (r : Result (Unit {0})) (dsns : List String)
          → P (continue r (λ _. next) (made_pool calls dsns log))
      made_behind (err e) [] = failed e
      made_behind (err e) (dsn ∷ dsns) = left e
      made_behind (ok u) [] = done
      made_behind (ok u) (dsn ∷ dsns) = made

  serve_until_signal-Stops : (cfg : Env) → Stops (serve_until_signal calls cfg)
  unfolding serve_until_signal
  serve_until_signal-Stops cfg log h =
      continue-follows Told (map_err (wrap ("listening on " +++ listen_addr cfg)) calls.listen)
        (λ _ log. (ok tt, jobs_stopped ∷ drained ∷ log)) (listening (listen_addr cfg) ∷ log)
        (λ e. h) (λ _. refl)

  with_mail-Stops : (cfg : Env) → Stops (with_mail calls cfg)
  unfolding with_mail
  with_mail-Stops cfg log h =
      continue-follows Told (map_err (wrap "configuring jobs") calls.jobs_configure) _ log (λ e. h)
        (λ _.
          continue-follows Told (map_err (wrap "starting jobs") calls.jobs_start) _ _ (λ e. h)
            (λ _.
              continue-follows Told (map_err (wrap "configuring flows") calls.flows) _ _ (λ e. h)
                (λ _. serve_until_signal-Stops cfg _ h)))

  with_pool-Stops : (cfg : Env) → Stops (with_pool calls cfg)
  unfolding with_pool
  with_pool-Stops cfg log h =
      configure_mail-follows Told cfg (with_mail calls cfg) log _ refl (λ e. h)
        (λ _. with_mail-Stops cfg log h) (with_mail-Stops cfg (outbox_swapped ∷ log) h)

  -- The job workers are stopped exactly on the runs that succeed, that is, those on which the server
  -- was started and then closed by a signal: after a failure behind the start of the workers, of the
  -- flows or of the listener, they are not stopped before the pool is closed.
  pub run-stops_jobs : any stops (run calls []).1 ≡ is_ok (run calls []).0
  unfolding run with_traces with_sentry
  run-stops_jobs =
      continue-follows Told calls.load _ [] (λ e. refl)
        (λ cfg.
          continue-follows Told calls.logging _ [] (λ e. refl)
            (λ _.
              continue-follows Told (map_err (wrap "configuring telemetry") calls.telemetry) _ []
                (λ e. refl)
                (λ _.
                  continue-follows Told (map_err (wrap "configuring sentry") calls.sentry') _
                    (opened traces ∷ []) (λ e. refl)
                    (λ _.
                      configure_db-follows Told (closing pool (with_pool calls cfg))
                        (opened sentry ∷ opened traces ∷ []) (λ e. refl) (λ e. refl)
                        (with_pool-Stops cfg (opened sentry ∷ opened traces ∷ []) refl)
                        (with_pool-Stops cfg (opened pool ∷ opened sentry ∷ opened traces ∷ [])
                          refl)))))

  abbrev Ordered : Result (Unit {0}) × Log → Type 0
  Ordered r = swapped_first r.1 ≡ true

  with_mail-Ordered :
      (cfg : Env) (log : Log)
      → any swaps log ≡ true
      → swapped_first log ≡ true
      → Ordered (with_mail calls cfg log)
  unfolding with_mail serve_until_signal
  with_mail-Ordered cfg log s h =
      let started : any swaps log && swapped_first log ≡ true = rw (s, h) refl in
      continue-follows Ordered (map_err (wrap "configuring jobs") calls.jobs_configure) _ log
        (λ e. h)
        (λ _.
          continue-follows Ordered (map_err (wrap "starting jobs") calls.jobs_start) _ _ (λ e. h)
            (λ _.
              continue-follows Ordered (map_err (wrap "configuring flows") calls.flows) _ _
                (λ e. started)
                (λ _.
                  continue-follows Ordered
                    (map_err (wrap ("listening on " +++ listen_addr cfg)) calls.listen)
                    (λ _ log. (ok tt, jobs_stopped ∷ drained ∷ log)) _ (λ e. started)
                    (λ _. started))))

  with_pool-Ordered :
      (cfg : Env) (log : Log)
      → is_empty cfg.mail_from ≡ false
      → swapped_first log ≡ true
      → Ordered (with_pool calls cfg log)
  unfolding with_pool
  with_pool-Ordered cfg log mails h =
      configure_mail-follows Ordered cfg (with_mail calls cfg) log _ mails (λ e. h) (λ e. cc)
        (with_mail-Ordered cfg (outbox_swapped ∷ log) refl h)

  -- Where the configuration names a sender of mail, the outbox is swapped for SES before the workers
  -- are started, on every run: no worker can send through the log.
  pub run-swaps_first :
      (cfg : Env)
      → calls.load ≡ ok cfg
      → is_empty cfg.mail_from ≡ false
      → swapped_first (run calls []).1 ≡ true
  unfolding run with_traces with_sentry
  run-swaps_first cfg loaded mails =
      rw (run, loaded)
        (continue-follows Ordered calls.logging _ [] (λ e. refl)
          (λ _.
            continue-follows Ordered (map_err (wrap "configuring telemetry") calls.telemetry) _ []
              (λ e. refl)
              (λ _.
                continue-follows Ordered (map_err (wrap "configuring sentry") calls.sentry') _
                  (opened traces ∷ []) (λ e. refl)
                  (λ _.
                    configure_db-follows Ordered (closing pool (with_pool calls cfg))
                      (opened sentry ∷ opened traces ∷ []) (λ e. refl) (λ e. refl)
                      (with_pool-Ordered cfg (opened sentry ∷ opened traces ∷ []) mails refl)
                      (with_pool-Ordered cfg (opened pool ∷ opened sentry ∷ opened traces ∷ [])
                        mails refl)))))
