-- ===== src/Telemetry/Installing.antt =====
-- What main defers closes what was installed, and nothing else.
use go_bootstrap.Prelude.{
  String, ◌≡◌, refl, sym, subst, ◌⊎◌, inl, inr, true, false, none, some, Bool-cases,
}
use go_bootstrap.Prelude.Text.{is_empty}
use go_bootstrap.Errors.{Result, ok, err}
use go_bootstrap.Telemetry.{
  Globals, Libraries, noop, close_traces, close_sentry, service_name, is_traced, Installed, install,
  merged, exported, configure, install_client, configure_sentry,
}

-- Nothing was installed, and there is nothing to close; an error or none comes back.
abbrev pub IsNothing : Globals → Installed → Type 0
IsNothing g r = (r.0.0 ≡ noop) × (r.1 ≡ g)

module _ (libs : Libraries) (os : String → String) where
  -- the traces under a service name, with the closer that flushes and stops them
  abbrev pub IsTraced : String → Globals → Installed → Type 0
  IsTraced name g r =
      (r ≡ ((close_traces, none), record g { provider = some name; propagates = true }))
      × (is_traced os ≡ true)
      × (libs.new_exporter ≡ ok tt)
      × (libs.merge ≡ ok tt)

  exported-cases :
      (name : String) (g : Globals) (exporter merge : Result (Unit {0}))
      → is_traced os ≡ true
      → libs.new_exporter ≡ exporter
      → libs.merge ≡ merge
      → IsNothing g (exported libs os name exporter g)
        ⊎ IsTraced name g (exported libs os name exporter g)
  unfolding exported merged install
  exported-cases name g (err e) merge traced new h = inl (refl, refl)
  exported-cases name g (ok u) (err e) traced new h = inl (rw (merged, h) (refl, refl))
  exported-cases name g (ok u) (ok v) traced new h = inr (rw (merged, h) refl, traced, new, h)

  -- Configure installs all or nothing: either it changes nothing and what main defers does nothing, whether
  -- with an error or without, or the traces are wanted and no call has failed, and then the provider under
  -- the name of the service and the propagators are installed, and what main defers flushes and stops them.
  pub configure-cases :
      (base_name : String) (g : Globals)
      → IsNothing g (configure libs os base_name g)
        ⊎ IsTraced (service_name os base_name) g (configure libs os base_name g)
  unfolding configure
  configure-cases base_name g = elim (Bool-cases (is_traced os)) [
    | inr off ↦ inl (rw (configure, off) (refl, refl))
    | inl on ↦
        subst (λ r. IsNothing g r ⊎ IsTraced (service_name os base_name) g r)
          (sym (rw (configure, on) refl))
          (exported-cases (service_name os base_name) g libs.new_exporter libs.merge on refl refl)
  ]

  -- the client of an environment, with the closer that flushes it
  abbrev pub IsCaptured : String → Globals → Installed → Type 0
  IsCaptured environment g r =
      (r ≡ ((close_sentry, none), record g { sentry_client = some environment }))
      × (is_empty (os "SENTRY_DSN") ≡ false)
      × (libs.init_sentry ≡ ok tt)

  install_client-cases :
      (environment : String) (g : Globals) (answer : Result (Unit {0}))
      → is_empty (os "SENTRY_DSN") ≡ false
      → libs.init_sentry ≡ answer
      → IsNothing g (install_client libs os environment answer g)
        ⊎ IsCaptured environment g (install_client libs os environment answer g)
  unfolding install_client
  install_client-cases environment g (err e) wanted h = inl (refl, refl)
  install_client-cases environment g (ok u) wanted h = inr (refl, wanted, h)

  -- The same for Sentry.
  pub configure_sentry-cases :
      (environment : String) (g : Globals)
      → IsNothing g (configure_sentry libs os environment g)
        ⊎ IsCaptured environment g (configure_sentry libs os environment g)
  unfolding configure_sentry
  configure_sentry-cases environment g = elim (Bool-cases (is_empty (os "SENTRY_DSN"))) [
    | inl off ↦ inl (rw (configure_sentry, off) (refl, refl))
    | inr on ↦
        subst (λ r. IsNothing g r ⊎ IsCaptured environment g r)
          (sym (rw (configure_sentry, on) refl))
          (install_client-cases environment g libs.init_sentry on refl)
  ]
