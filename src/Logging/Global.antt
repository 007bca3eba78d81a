-- ===== src/Logging/Global.antt =====
-- logging/logging.go: the manager of the process, which init makes before any other code runs. The error
-- of NewManager is a panic there. ForceColor is a call of charmbracelet/log.
use go_bootstrap.Prelude.{String, ◌≡◌, refl, true, Option, none, some, List, []}
use go_bootstrap.Prelude.Text.{split, cut, trim_space}
use go_bootstrap.Errors.{Error, ok}
use go_bootstrap.Logging.{
  info, LoggingConfig, Manager, configure, new_config, parse_log_level, empty_config, tag_name,
}
use go_bootstrap.Logging.Sync.{Call, after, IsSynced, after-IsSynced}

-- the zero value of LoggingConfig; the level is the zero of charmbracelet/log, which is info
abbrev zero_config : LoggingConfig
zero_config = record (empty_config (λ s. s) "" info) { value = "" }

unfoldable pub new_manager : (String → String) → String → String → Option Error × Manager
new_manager to_upper settings default_level =
    configure to_upper settings default_level (record { config = zero_config; handlers = [] })

manager_of : Option Error × Manager → Option Manager
manager_of (none, m) = some m
manager_of (some e, m) = none

-- init; none is its panic
unfoldable pub init : (String → String) → Option Manager
unfolding new_manager manager_of
init to_upper = manager_of (new_manager to_upper "_all" "INFO")

-- the manager of a process in which nothing was configured yet
abbrev first_manager : Manager
first_manager = record {
  config = record (empty_config (λ s. s) "_all" info) { include_all = true };
  handlers = [];
}

module _ (to_upper : String → String) (upper : to_upper "INFO" ≡ "INFO") where
  info-parsed : parse_log_level to_upper "INFO" ≡ ok info
  unfolding parse_log_level
  info-parsed = rw upper refl

  first-parsed : new_config to_upper "_all" "INFO" ≡ ok first_manager.config
  unfolding new_config split cut trim_space tag_name
  first-parsed = rw (new_config, info-parsed) refl

  init-some : init to_upper ≡ some first_manager
  unfolding init new_manager configure
  init-some = rw (init, new_manager, configure, first-parsed) refl

  -- The process starts with a manager: where "INFO" is its own upper case, init does not panic. Whatever
  -- loggers are then asked for and whatever settings are put in force, in whatever order, every logger of
  -- the process writes and has its level as the settings in force say.
  pub init-IsSynced :
      (calls : List Call)
      → (m : Manager) × (init to_upper ≡ some m) × IsSynced to_upper (after to_upper calls m)
  init-IsSynced calls = (first_manager, init-some, after-IsSynced to_upper calls first_manager tt)
