-- ===== src/Server/Examples.antt =====
-- Starts that fail and one that does not, and a shutdown with a request in flight.
use go_bootstrap.Prelude.{◌≡◌, ◌⊎◌, refl, false, true, some, [], ◌∷◌}
use go_bootstrap.Errors.{sentinel, wrap, external, ok, err}
use go_bootstrap.Env.{Env, is_dev}
use go_bootstrap.Db.Pool.{Pgx, configure}
use go_bootstrap.Server
use go_bootstrap.Server.{
  traces, sentry, pool, opened, closed, outbox_swapped, jobs_configured, jobs_started,
  flows_mounted, jobs_stopped, Calls, listen_addr, run,
}
use go_bootstrap.Server.Cleanup.{open_behind, run-Balanced}
use go_bootstrap.Server.Shutdown.{
  Main, State, started, accept, answer, signal, close_server, shut_down, receive_drained, Reach,
  here, next, Drain, stopping, drained,
}
use go_bootstrap.Server.Shutdown.Draining.{jobs_stop-drained}

abbrev config : Env
config = record {
  app_env = "development";
  port = "8080";
  public_dir = "public";
  base_url = "http://localhost:8080";
  mail_from = "app@example.com";
}

abbrev answering : Pgx
answering = record { parse_config = λ dsn. ok tt; new_pool = ok tt; ping = ok tt }

abbrev working : Calls
working = record {
  load = ok config;
  logging = ok tt;
  telemetry = ok tt;
  sentry' = ok tt;
  db = answering;
  ses = ok tt;
  jobs_configure = ok tt;
  jobs_start = ok tt;
  flows = ok tt;
  listen = ok tt;
}

-- a port that another process holds
abbrev port_taken : Calls
port_taken = record working { listen = err (sentinel (external "address already in use")) }

working_events : run working [] ≡ (
  ok tt,
  closed traces
      ∷ closed sentry
      ∷ closed pool
      ∷ jobs_stopped
      ∷ Server.drained
      ∷ Server.listening "localhost:8080"
      ∷ flows_mounted
      ∷ jobs_started
      ∷ jobs_configured
      ∷ outbox_swapped
      ∷ opened pool
      ∷ opened sentry
      ∷ opened traces
      ∷ [],
)
unfolding run listen_addr is_dev configure
working_events = refl

-- The workers run when the pool is closed.
port_taken_events : run port_taken [] ≡ (
  err (wrap "listening on localhost:8080" (sentinel (external "address already in use"))),
  closed traces
      ∷ closed sentry
      ∷ closed pool
      ∷ Server.listening "localhost:8080"
      ∷ flows_mounted
      ∷ jobs_started
      ∷ jobs_configured
      ∷ outbox_swapped
      ∷ opened pool
      ∷ opened sentry
      ∷ opened traces
      ∷ [],
)
unfolding run listen_addr is_dev configure
port_taken_events = refl

run-Balanced_example : open_behind (run port_taken []).1 ≡ some []
run-Balanced_example = run-Balanced port_taken refl

-- a database that does not answer
abbrev unreachable : Calls
unreachable = record working {
  db = record answering { ping = err (sentinel (external "connection refused")) };
}

-- The pool is made and not closed.
unreachable_events :
    (run unreachable []).1
    ≡ closed traces ∷ closed sentry ∷ opened pool ∷ opened sentry ∷ opened traces ∷ []
unfolding run configure
unreachable_events = refl

abbrev at : Main → Drain → State
at m d = record { main = m; drain = d; in_flight = 0 }

-- A request comes, then the signal; the request is answered, and main stops the workers.
shut : Reach started (at stopping (drained false))
shut =
    next
      (next (next (next (next (next here (accept 0)) (signal _ 1)) (close_server 1)) (answer _ _ 0))
        (shut_down _))
      (receive_drained false 0)

jobs_stop-drained_example :
    (drained false ≡ drained true)
    ⊎ ((drained false ≡ drained false) × ((at stopping (drained false)).in_flight ≡ 0))
jobs_stop-drained_example = jobs_stop-drained (at stopping (drained false)) shut refl
