-- ===== src/Logging/Trace.antt =====
-- logging/trace.go: the handler that stamps trace ids on the records of a span. The handlers below it
-- (charmbracelet/log) are a parameter: what they write and whether they fail, and what they become with
-- attributes or under a group.
pub mod Stamping
use go_bootstrap.Prelude.{String, Bool, Option, none, some, List, [], ◌∷◌, ◌++◌, if◌then◌else◌}
use go_bootstrap.Errors.{Error, wrap}

pub record LogRecord : Type 0 where
  pub message : String
  pub attrs : List (String × String)

-- trace.SpanContext, of a context with or without a span
pub record SpanContext : Type 0 where
  pub trace_id : String
  pub span_id : String
  pub is_valid : Bool

-- a library of handlers
pub record Library : Type 1 where
  pub Bare : Type 0
  -- what is written, and the error
  pub handle_bare : Bare → LogRecord → Option Error × List LogRecord
  pub bare_with_attrs : Bare → List (String × String) → Bare
  pub bare_with_group : Bare → String → Bare

-- slog.Handler: a handler of the library, or a traceHandler around a handler
pub data Handler (lib : Library) : Type 0 where
  bare : lib.Bare → Handler lib
  trace_handler : Handler lib → Handler lib

-- the record with what Handle of a traceHandler adds
unfoldable pub stamped : SpanContext → LogRecord → LogRecord
stamped sc r =
    if sc.is_valid
    then record r { attrs = r.attrs ++ ("trace_id", sc.trace_id) ∷ ("span_id", sc.span_id) ∷ [] }
    else r

abbrev pub failing : Option Error × List LogRecord → Option Error × List LogRecord
failing (none, lines) = (none, lines)
failing (some e, lines) = (some (wrap "handling log record" e), lines)

module _ (lib : Library) where
  unfoldable pub handle : Handler lib → SpanContext → LogRecord → Option Error × List LogRecord
  handle (bare h) sc r = lib.handle_bare h r
  handle (trace_handler h) sc r = failing (handle h sc (stamped sc r))

  unfoldable pub with_attrs : Handler lib → List (String × String) → Handler lib
  with_attrs (bare h) attrs = bare (lib.bare_with_attrs h attrs)
  with_attrs (trace_handler h) attrs = trace_handler (with_attrs h attrs)

  unfoldable pub with_group : Handler lib → String → Handler lib
  with_group (bare h) name = bare (lib.bare_with_group h name)
  with_group (trace_handler h) name = trace_handler (with_group h name)
