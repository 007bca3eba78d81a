-- ===== src/Logging/Trace/Stamping.antt =====
-- A logger of the manager stamps every record of a span, also when it is derived.
use go_bootstrap.Prelude.{
  String, ◌≡◌, refl, List, [], ◌∷◌, ◌++◌, Option, none, some, Bool-cases, inl, inr, if◌then◌else◌,
}
use mathlib.Core.Option.{map}
use go_bootstrap.Errors.{Error, wrap}
use go_bootstrap.Logging.Trace.{
  LogRecord, SpanContext, Library, Handler, bare, trace_handler, stamped, failing, handle,
  with_attrs, with_group,
}

-- logger.With and logger.WithGroup
pub data Derivation : Type 0 where
  by_attrs : List (String × String) → Derivation
  by_group : String → Derivation

module _ (lib : Library) where
  -- the handler of a logger that was derived step by step
  unfoldable pub derived : List Derivation → Handler lib → Handler lib
  derived [] h = h
  derived (by_attrs attrs ∷ ds) h = derived ds (with_attrs lib h attrs)
  derived (by_group name ∷ ds) h = derived ds (with_group lib h name)

  -- the same steps on a handler of the library
  abbrev pub derived_bare : List Derivation → lib.Bare → lib.Bare
  derived_bare [] h = h
  derived_bare (by_attrs attrs ∷ ds) h = derived_bare ds (lib.bare_with_attrs h attrs)
  derived_bare (by_group name ∷ ds) h = derived_bare ds (lib.bare_with_group h name)

  failing_lem :
      (written : Option Error × List LogRecord)
      → failing written ≡ (map (wrap "handling log record") written.0, written.1)
  failing_lem (none, lines) = refl
  failing_lem (some e, lines) = refl

  derived-trace_handler :
      (ds : List Derivation) (h : lib.Bare)
      → derived ds (trace_handler (bare h)) ≡ trace_handler (bare (derived_bare ds h))
  unfolding derived with_attrs with_group
  derived-trace_handler [] h = refl
  derived-trace_handler (by_attrs attrs ∷ ds) h =
      derived-trace_handler ds (lib.bare_with_attrs h attrs)
  derived-trace_handler (by_group name ∷ ds) h =
      derived-trace_handler ds (lib.bare_with_group h name)

  -- A traceHandler, however it is derived by attributes and groups, hands each record to the handler of the
  -- library that is derived by the same steps, with the message as it is and with the attributes as they are
  -- but for trace_id and span_id, which stand at their end in a valid span; it writes what that handler
  -- writes, and fails, with its error wrapped, exactly where it fails.
  pub handle-derived :
      (ds : List Derivation) (h : lib.Bare) (sc : SpanContext) (r : LogRecord)
      → let (failure, lines) = lib.handle_bare (derived_bare ds h) (record {
        message = r.message;
        attrs =
            if sc.is_valid
            then r.attrs ++ ("trace_id", sc.trace_id) ∷ ("span_id", sc.span_id) ∷ []
            else r.attrs;
      }) in
        handle lib (derived ds (trace_handler (bare h))) sc r
        ≡ (map (wrap "handling log record") failure, lines)
  unfolding handle stamped
  handle-derived ds h sc r = elim (Bool-cases sc.is_valid) [
    | inl valid ↦ rw (derived-trace_handler ds h, valid) (failing_lem _)
    | inr invalid ↦ rw (derived-trace_handler ds h, invalid) (failing_lem _)
  ]
