-- ===== src/Server.antt =====
-- server.go: the start of the process, its end, and what stands between them. The packages that it
-- sets up are its calls, with their results as parameters; what happens is written down, the last
-- event first. `listen` is ok where Shutdown has closed the server. web.Configure and web.Router return
-- no error and are left out. That a flush or a stop
-- fails is a log line and is not modelled.
pub mod Cleanup
pub mod Jobs
pub mod Shutdown
mod Examples
use go_bootstrap.Prelude.{
  ℕ, String, Bool, true, false, Option, none, some, List, [], ◌∷◌, not, if◌then◌else◌,
}
use go_bootstrap.Prelude.Text.{◌+++◌, is_empty}
use go_bootstrap.Errors.{Error, wrap, Result, ok, err}
use go_bootstrap.Exec.{Exec, pure, lift, wrapping, ◌>>=◌, ◌>>◌}
use go_bootstrap.Env.{Env, is_dev}
use go_bootstrap.Db.Pool.{Pgx, no_pools, configure}

-- what run opens and closes
pub data Resource : Type 0 where
  traces sentry pool : Resource

pub data Event : Type 0 where
  opened closed : Resource → Event
  outbox_swapped jobs_configured jobs_started flows_mounted drained jobs_stopped : Event
  listening : (addr : String) → Event

-- the results of the calls
pub record Calls : Type 0 where
  pub load : Result Env
  pub logging : Result (Unit {0})
  pub telemetry : Result (Unit {0})
  pub sentry' : Result (Unit {0})
  -- what pgx answers to db.Configure
  pub db : Pgx
  pub ses : Result (Unit {0})
  pub jobs_configure : Result (Unit {0})
  pub jobs_start : Result (Unit {0})
  pub flows : Result (Unit {0})
  pub listen : Result (Unit {0})

abbrev pub Log : Type 0
Log = List Event

abbrev pub Run : Type 0
Run = Exec Log (Unit {0})

abbrev pub happens : Event → Run
happens event log = (ok tt, event ∷ log)

-- a defer of what closes a resource: it runs at the end of the function, whatever that returns
abbrev pub closing : Resource → Run → Run
closing r body log = ((body log).0, closed r ∷ (body log).1)

unfoldable pub listen_addr : Env → String
listen_addr cfg = if is_dev cfg then "localhost:" +++ cfg.port else ":" +++ cfg.port

module _ (calls : Calls) where
  configure_mail : Env → Run
  configure_mail cfg =
      if not (is_empty cfg.mail_from)
      then (do wrapping "configuring ses mailer" (lift calls.ses); happens outbox_swapped)
      else pure tt

  serve_until_signal : Env → Run
  serve_until_signal cfg = do
    happens (listening (listen_addr cfg))
    wrapping ("listening on " +++ listen_addr cfg) (lift calls.listen)
    happens drained
    happens jobs_stopped

  with_mail : Env → Run
  unfolding serve_until_signal
  with_mail cfg = do
    wrapping "configuring jobs" (lift calls.jobs_configure)
    happens jobs_configured
    wrapping "starting jobs" (lift calls.jobs_start)
    happens jobs_started
    wrapping "configuring flows" (lift calls.flows)
    happens flows_mounted
    serve_until_signal cfg

  with_pool : Env → Run
  unfolding configure_mail with_mail
  with_pool cfg = do configure_mail cfg; with_mail cfg

  -- a pool that db.Configure has made, whether it sets db.Conn or leaves the pool behind with an error
  made_pool : List String → Log → Log
  made_pool [] log = log
  made_pool (dsn ∷ dsns) log = opened pool ∷ log

  -- db.Configure(ctx, "") of a process without a pool
  configure_db : Run
  unfolding made_pool
  configure_db log =
      let (r, pools) = configure calls.db "" no_pools in (r, made_pool pools.open_pools log)

  with_sentry : Env → Run
  unfolding configure_db with_pool
  with_sentry cfg = do configure_db; closing pool (with_pool cfg)

  with_traces : Env → Run
  unfolding with_sentry
  with_traces cfg = do
    wrapping "configuring sentry" (lift calls.sentry')
    happens (opened sentry)
    closing sentry (with_sentry cfg)

  unfoldable pub run : Run
  unfolding with_traces
  run = do
    cfg ← lift calls.load
    lift calls.logging
    wrapping "configuring telemetry" (lift calls.telemetry)
    happens (opened traces)
    closing traces (with_traces cfg)

  -- the status with which main ends the process
  unfoldable pub exit_status : ℕ
  unfolding run
  exit_status = elim (run []).0 [ ok u ↦ 0 | err e ↦ 1 ]
