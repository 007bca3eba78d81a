-- ===== src/Logging.antt =====
-- logging/config.go and logging/logger_manager.go: the loggers of the packages, by name, and the
-- settings that say which of them write and at which level. Go's maps are association lists, the
-- latest entry first; strings.ToUpper is a parameter.
pub mod Settings
pub mod Sync
pub mod Trace
pub mod Global
mod Examples
use Prim.Native.String
use go_bootstrap.Prelude.{
  ℕ, String, Bool, true, false, not, ◌&&◌, ◌||◌, Option, none, some, List, [], ◌∷◌, ◌==◌,
  if◌then◌else◌,
}
use text.Mathlib.Text.{starts_with}
use go_bootstrap.Prelude.Text.{◌+++◌, is_empty, trim_space, split, cut}
use go_bootstrap.Errors.{Error, detailed, wrap, unknown_level, Result, ok, err}

pub data Level : Type 0 where
  debug info warn error : Level

-- map[string]*log.Level, where none is the nil pointer
abbrev pub Levels : Type 0
Levels = List (String × Option Level)

abbrev pub find {ℓ} : {A : Type ℓ} → String → List (String × A) → Option A
find key [] = none
find key ((k, v) ∷ l) = if k == key then some v else find key l

abbrev pub has_key {ℓ} : {A : Type ℓ} → String → List (String × A) → Bool
has_key key [] = false
has_key key ((k, v) ∷ l) = k == key || has_key key l

-- the map after m[key] = v
abbrev pub store {ℓ} : {A : Type ℓ} → String → A → List (String × A) → List (String × A)
store key v l = (key, v) ∷ l

pub record LoggingConfig : Type 0 where
  pub value : String
  pub default_level : Level
  pub include_all : Bool
  pub include : Levels
  pub level : Levels
  pub exclude : Levels

abbrev drop_first : String → String
drop_first String.[] = ""
drop_first (String.◌∷◌ c s) = s

module _ (to_upper : String → String) where
  unfoldable pub parse_log_level : String → Result Level
  parse_log_level level =
      if to_upper level == "DEBUG"
      then ok debug
      else if to_upper level == "INFO"
      then ok info
      else if to_upper level == "WARN"
      then ok warn
      else if to_upper level == "ERROR"
      then ok error
      else err (detailed unknown_level (to_upper level))

  -- the level of a tag's second part, if it has one
  parse_part : Option (String × String) → Result (Option Level)
  parse_part none = ok none
  parse_part (some (name, text)) = elim (parse_log_level text) [
    | ok l ↦ ok (some l)
    | err e ↦ err e
  ]

  name_part : String → Option (String × String) → String
  name_part tag none = tag
  name_part tag (some (name, text)) = name

  -- parts[0] of a tag
  unfoldable pub tag_name : String → String
  unfolding name_part
  tag_name tag = name_part tag (cut b':' tag)

  or_default : Level → Option Level → Level
  or_default d none = d
  or_default d (some l) = l

  -- one round of the loop, behind the parsing of the tag's level
  add_tag : String → Option Level → LoggingConfig → LoggingConfig
  unfolding or_default
  add_tag name level c =
      if name == "_all"
      then record c { default_level = or_default c.default_level level; include_all = true }
      else if starts_with name "-"
      then record c { exclude = store (drop_first name) level c.exclude }
      else record c { include = store name level c.include }

  add_tags : List String → LoggingConfig → Result LoggingConfig
  unfolding parse_part tag_name add_tag
  add_tags [] c = ok c
  add_tags (tag ∷ tags) c = elim (parse_part (cut b':' (trim_space tag))) [
    | ok level ↦ add_tags tags (add_tag (tag_name (trim_space tag)) level c)
    | err e ↦ err (wrap ("error parsing log level for tag (" +++ (trim_space tag +++ ")")) e)
  ]

  abbrev pub empty_config : String → Level → LoggingConfig
  empty_config value default_level = record {
    value = value;
    default_level = default_level;
    include_all = false;
    include = [];
    level = [];
    exclude = [];
  }

  unfoldable pub new_config : String → String → Result LoggingConfig
  unfolding add_tags
  new_config config default_level =
      elim (parse_log_level (if is_empty default_level then "INFO" else default_level)) [
        | ok level ↦ add_tags (split b',' config) (empty_config config level)
        | err e ↦ err e
      ]

unfoldable pub is_included : LoggingConfig → String → Bool
is_included c tag = has_key tag c.include || c.include_all

unfoldable pub is_excluded : LoggingConfig → String → Bool
is_excluded c tag = has_key tag c.exclude

unfoldable pub is_enabled : LoggingConfig → String → Bool
unfolding is_included is_excluded
is_enabled c tag = is_included c tag && not (is_excluded c tag)

level_or : Level → Option (Option Level) → Level
level_or d (some (some l)) = l
level_or d (some none) = d
level_or d none = d

unfoldable pub get_level : LoggingConfig → String → Level
unfolding level_or
get_level c tag = level_or c.default_level (find tag c.level)

-- A handler of charmbracelet/log: whether it writes to stderr, else nowhere, and its level.
pub record LogHandler : Type 0 where
  pub writes : Bool
  pub level : Level

-- A logger stands under its name in both maps of the manager, and writes through its handler.
pub record Manager : Type 0 where
  pub config : LoggingConfig
  pub handlers : List (String × LogHandler)

abbrev pub handler_of : LoggingConfig → String → LogHandler
handler_of c name = record { writes = is_enabled c name; level = get_level c name }

reset_all : LoggingConfig → List (String × LogHandler) → List (String × LogHandler)
reset_all c [] = []
reset_all c ((name, handler) ∷ l) = (name, handler_of c name) ∷ reset_all c l

unfoldable pub configure : (String → String) → String → String → Manager → Option Error × Manager
unfolding reset_all
configure to_upper settings default_level m = elim (new_config to_upper settings default_level) [
  | ok c ↦ (none, record { config = c; handlers = reset_all c m.handlers })
  | err e ↦ (some e, m)
]

unfoldable pub logger : String → Manager → Manager
logger name m =
    if has_key name m.handlers
    then m
    else record m { handlers = store name (handler_of m.config name) m.handlers }
