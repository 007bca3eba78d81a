-- ===== src/Logging/Sync.antt =====
-- Every logger follows the settings, whenever it was made.
use go_bootstrap.Prelude.{String, ◌≡◌, refl, List, [], ◌∷◌, All, Bool-cases, inl, inr}
use go_bootstrap.Errors.{Result, ok, err}
use go_bootstrap.Logging.{
  LoggingConfig, LogHandler, Manager, handler_of, reset_all, configure, logger, new_config, has_key,
}

-- the calls of the manager
pub data Call : Type 0 where
  to_configure : (settings default_level : String) → Call
  to_logger : (name : String) → Call

module _ (to_upper : String → String) where
  -- the manager behind a sequence of calls
  unfoldable pub after : List Call → Manager → Manager
  after [] m = m
  after (to_configure settings default_level ∷ calls) m =
      after calls (configure to_upper settings default_level m).1
  after (to_logger name ∷ calls) m = after calls (logger name m)

  -- Every handler is the one that the configuration in force gives its name.
  abbrev pub IsSynced : Manager → Type 0
  IsSynced m = All (λ (name, handler). handler ≡ handler_of m.config name) m.handlers

  reset_all-IsSynced :
      (c : LoggingConfig) (l : List (String × LogHandler))
      → All (λ (name, handler). handler ≡ handler_of c name) (reset_all c l)
  unfolding reset_all
  reset_all-IsSynced c [] = tt
  reset_all-IsSynced c ((name, handler) ∷ l) = (refl, reset_all-IsSynced c l)

  configured-IsSynced :
      (settings default_level : String) (m : Manager) (made : Result LoggingConfig)
      → new_config to_upper settings default_level ≡ made
      → IsSynced m
      → IsSynced (configure to_upper settings default_level m).1
  unfolding configure
  configured-IsSynced settings default_level m (ok c) made h =
      rw (configure, made) (reset_all-IsSynced c m.handlers)
  configured-IsSynced settings default_level m (err e) made h = rw (configure, made) h

  logger-IsSynced : (name : String) (m : Manager) → IsSynced m → IsSynced (logger name m)
  unfolding logger
  logger-IsSynced name m h = elim (Bool-cases (has_key name m.handlers)) [
    | inl there ↦ rw there h
    | inr fresh ↦ rw fresh (refl, h)
  ]

  -- Whatever loggers are asked for and whatever settings are put in force, in whatever order, every
  -- logger writes and has its level as the settings in force say, if it was so at first.
  pub after-IsSynced : (calls : List Call) (m : Manager) → IsSynced m → IsSynced (after calls m)
  unfolding after
  after-IsSynced [] m h = h
  after-IsSynced (to_configure settings default_level ∷ calls) m h =
      after-IsSynced calls (configure to_upper settings default_level m).1
        (configured-IsSynced settings default_level m _ refl h)
  after-IsSynced (to_logger name ∷ calls) m h =
      after-IsSynced calls (logger name m) (logger-IsSynced name m h)
