-- ===== src/Logging/Examples.antt =====
-- The theorems about the loggers at concrete settings.
use go_bootstrap.Prelude.{
  String, ◌≡◌, refl, true, false, not, ◌&&◌, ◌||◌, none, some, List, [], ◌∷◌, ◌++◌, any, ◌==◌,
  if◌then◌else◌,
}
use go_bootstrap.Prelude.Text.{split}
use go_bootstrap.Errors.{ok}
use go_bootstrap.Logging.{
  LoggingConfig, Manager, info, debug, new_config, is_enabled, get_level, empty_config,
}
use go_bootstrap.Logging.Trace.{
  LogRecord, SpanContext, Library, bare, trace_handler, stamped, handle, with_attrs, with_group,
}
use go_bootstrap.Logging.Trace.Stamping.{Derivation, by_attrs, by_group, derived, handle-derived}

-- the upper case of the words that the settings use
abbrev upper : String → String
upper s = if s == "debug" then "DEBUG" else s

-- what "web:debug,-jobs" gives
abbrev demo_config : LoggingConfig
demo_config = record {
  value = "web:debug,-jobs";
  default_level = info;
  include_all = false;
  include = ("web", some debug) ∷ [];
  level = [];
  exclude = ("jobs", none) ∷ [];
}

demo_parses : new_config upper "web:debug,-jobs" "" ≡ ok demo_config
unfolding new_config go_bootstrap.Logging.parse_log_level split go_bootstrap.Prelude.Text.cut
    go_bootstrap.Prelude.Text.trim_space
demo_parses = refl

abbrev demo_manager : Manager
demo_manager = record { config = demo_config; handlers = [] }

-- a library whose handlers write what they are derived by
abbrev demo_library : Library
demo_library = record {
  Bare = List (String × String);
  handle_bare = λ h r. (none, record { message = r.message; attrs = h ++ r.attrs } ∷ []);
  bare_with_attrs = λ h attrs. h ++ attrs;
  bare_with_group = λ h name. h ++ ("group", name) ∷ [];
}

abbrev in_span : SpanContext
in_span = record { trace_id = "4bf9"; span_id = "00f0"; is_valid = true }

abbrev steps : List Derivation
steps = by_attrs (("user", "7") ∷ []) ∷ by_group "db" ∷ []

abbrev hello : LogRecord
hello = record { message = "hello"; attrs = ("k", "v") ∷ [] }

handle-derived_example :
    handle demo_library (derived demo_library steps (trace_handler (bare []))) in_span hello ≡ (
      none,
      record {
        message = "hello";
        attrs =
            ("user", "7")
            ∷ ("group", "db")
            ∷ ("k", "v")
            ∷ ("trace_id", "4bf9")
            ∷ ("span_id", "00f0")
            ∷ [];
      }
          ∷ [],
    )
handle-derived_example = handle-derived demo_library steps [] in_span hello

-- what that writes
stamped_line :
    handle demo_library (derived demo_library steps (trace_handler (bare []))) in_span hello ≡ (
      none,
      record {
        message = "hello";
        attrs =
            ("user", "7")
            ∷ ("group", "db")
            ∷ ("k", "v")
            ∷ ("trace_id", "4bf9")
            ∷ ("span_id", "00f0")
            ∷ [];
      }
          ∷ [],
    )
unfolding handle derived with_attrs with_group stamped
stamped_line = refl
