-- ===== src/Telemetry/Examples.antt =====
-- A process with a collector, of whose traces the last are lost.
use go_bootstrap.Prelude.{String, ◌≡◌, refl, true, false, none, some, [], ◌∷◌, ◌==◌, if◌then◌else◌}
use go_bootstrap.Errors.{sentinel, external, ok}
use go_bootstrap.Telemetry.{Globals, Libraries, is_traced, configure, close}

abbrev collected : String → String
collected name = if name == "OTEL_EXPORTER_OTLP_ENDPOINT" then "http://localhost:4318" else ""

abbrev answers : Libraries
answers = record {
  new_exporter = ok tt;
  merge = ok tt;
  force_flush = some (sentinel (external "deadline exceeded"));
  stop_provider = none;
  init_sentry = ok tt;
  flush_sentry = true;
}

abbrev bare : Globals
bare = record { provider = none; propagates = false; sentry_client = none }

-- the traces are installed, and the failed flush comes back at the end
lost_traces :
    close answers (configure answers collected "app" bare).0.0
    ≡ sentinel (external "deadline exceeded") ∷ []
unfolding configure close is_traced
lost_traces = refl
