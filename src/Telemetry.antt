-- ===== src/Telemetry.antt =====
-- telemetry/telemetry.go and telemetry/sentry.go: what the process installs in OpenTelemetry and in Sentry,
-- and what main defers. Building an exporter, merging resources, initializing and flushing are calls of
-- the two libraries, with their results as parameters.
pub mod Installing
mod Examples
use go_bootstrap.Prelude.{
  String, Bool, true, false, ◌||◌, Option, none, some, List, [], ◌∷◌, ◌==◌, if◌then◌else◌,
}
use go_bootstrap.Prelude.Text.{is_empty}
use go_bootstrap.Errors.{Error, sentinel, sentry_flush_timeout, wrap, Result, ok, err}
use go_bootstrap.Exec.{Exec}

-- The global state of the two libraries.
pub record Globals : Type 0 where
  -- the provider of traces by its service name; none is the one that records nothing
  pub provider : Option String
  -- the propagators of the trace context and of the baggage
  pub propagates : Bool
  -- the client of Sentry by its environment; none captures nothing
  pub sentry_client : Option String

-- What the calls of the libraries answer.
pub record Libraries : Type 0 where
  pub new_exporter : Result (Unit {0})
  pub merge : Result (Unit {0})
  pub force_flush : Option Error
  pub stop_provider : Option Error
  pub init_sentry : Result (Unit {0})
  -- sentry.FlushWithContext
  pub flush_sentry : Bool

-- the functions that Configure and ConfigureSentry return
pub data Closer : Type 0 where
  noop close_traces close_sentry : Closer

-- ServiceName, with appname.Base as a parameter
unfoldable pub service_name : (String → String) → String → String
service_name os base_name =
    if is_empty (os "OTEL_SERVICE_NAME")
    then (if is_empty base_name then "app" else base_name)
    else os "OTEL_SERVICE_NAME"

-- errors.Join: the errors that are not nil
abbrev pub join_errors : List (Option Error) → List Error
join_errors [] = []
join_errors (none ∷ es) = join_errors es
join_errors (some e ∷ es) = e ∷ join_errors es

unfoldable pub is_traced : (String → String) → Bool
is_traced os =
    if is_empty (os "OTEL_EXPORTER_OTLP_ENDPOINT") || os "OTEL_SDK_DISABLED" == "true"
    then false
    else true

-- A function with two results: the closer stands beside the error, and comes back with it.
abbrev pub Installed : Type 0
Installed = (Closer × Option Error) × Globals

module _ (libs : Libraries) (os : String → String) where
  install : String → Globals → Installed
  install name g = ((close_traces, none), record g { provider = some name; propagates = true })

  merged : String → Result (Unit {0}) → Globals → Installed
  unfolding install
  merged name (err e) g = ((noop, some (wrap "merging resource attributes" e)), g)
  merged name (ok u) g = install name g

  exported : String → Result (Unit {0}) → Globals → Installed
  unfolding merged
  exported name (err e) g = ((noop, some (wrap "creating otlp exporter" e)), g)
  exported name (ok u) g = merged name libs.merge g

  -- Configure
  unfoldable pub configure : String → Globals → Installed
  unfolding exported
  configure base_name g =
      if is_traced os
      then exported (service_name os base_name) libs.new_exporter g
      else ((noop, none), g)

  install_client : String → Result (Unit {0}) → Globals → Installed
  install_client environment (err e) g = ((noop, some (wrap "initializing sentry" e)), g)
  install_client environment (ok u) g =
      ((close_sentry, none), record g { sentry_client = some environment })

  -- ConfigureSentry
  unfoldable pub configure_sentry : String → Globals → Installed
  unfolding install_client
  configure_sentry environment g =
      if is_empty (os "SENTRY_DSN")
      then ((noop, none), g)
      else install_client environment libs.init_sentry g

-- what a closer returns when main runs it
unfoldable pub close : Libraries → Closer → List Error
close libs noop = []
close libs close_traces = join_errors (libs.force_flush ∷ libs.stop_provider ∷ [])
close libs close_sentry = if libs.flush_sentry then [] else sentinel sentry_flush_timeout ∷ []
