-- ===== src/Logging/Settings.antt =====
-- What the settings say.
use go_bootstrap.Prelude.{
  String, ◌≡◌, refl, ap, Bool, not, ◌&&◌, ◌||◌, Option, List, [], ◌∷◌, arith, ◌==◌, any,
  if◌then◌else◌, Bool-cases, inl, inr,
}
use text.Mathlib.Text.{starts_with}
use go_bootstrap.Prelude.Text.{is_empty, trim_space, split, cut}
use go_bootstrap.Errors.{Result, ok, err}
use go_bootstrap.Logging.{
  Level, LoggingConfig, has_key, drop_first, parse_log_level, parse_part, tag_name, add_tag,
  add_tags, empty_config, new_config, is_included, is_excluded, is_enabled, get_level, level_or,
}

module _ (to_upper : String → String) where
  -- what one entry of the settings says of a tag
  abbrev pub name_of : String → String
  name_of entry = tag_name to_upper (trim_space entry)

  abbrev pub says_all : String → Bool
  says_all entry = name_of entry == "_all"

  abbrev pub includes : String → String → Bool
  includes tag entry =
      not (says_all entry) && not (starts_with (name_of entry) "-") && name_of entry == tag

  abbrev pub excludes : String → String → Bool
  excludes tag entry =
      not (says_all entry) && starts_with (name_of entry) "-" && drop_first (name_of entry) == tag

  -- what a configuration says
  record Says (c : LoggingConfig) (all : Bool) (inside outside : String → Bool) : Type 0 where
    pub all_eq : c.include_all ≡ all
    pub inside_eq : (tag : String) → has_key tag c.include ≡ inside tag
    pub outside_eq : (tag : String) → has_key tag c.exclude ≡ outside tag
    pub level_eq : c.level ≡ []

  add_tag-Says :
      (entry : String) (level : Option Level) (c : LoggingConfig)
      → c.level ≡ []
      → Says
          (add_tag to_upper (name_of entry) level c)
          (c.include_all || says_all entry)
          (λ tag. has_key tag c.include || includes tag entry)
          (λ tag. has_key tag c.exclude || excludes tag entry)
  unfolding add_tag
  add_tag-Says entry level c h = elim (Bool-cases (says_all entry)) [
    | inl all ↦ record {
      all_eq = ground arith;
      inside_eq = λ tag. ground arith;
      outside_eq = λ tag. ground arith;
      level_eq = rw (all, h) refl;
    }
    | inr one ↦ elim (Bool-cases (starts_with (name_of entry) "-")) [
      | inl out ↦ record {
        all_eq = ground arith;
        inside_eq = λ tag. ground arith;
        outside_eq = λ tag. ground arith;
        level_eq = rw (one, out, h) refl;
      }
      | inr in' ↦ record {
        all_eq = ground arith;
        inside_eq = λ tag. ground arith;
        outside_eq = λ tag. ground arith;
        level_eq = rw (one, in', h) refl;
      }
    ]
  ]

  add_parsed :
      (entry : String) (tags : List String) (c c' : LoggingConfig) (part : Result (Option Level))
      → parse_part to_upper (cut b':' (trim_space entry)) ≡ part
      → add_tags to_upper (entry ∷ tags) c ≡ ok c'
      → (level : Option Level) × (add_tags to_upper tags (add_tag to_upper (name_of entry) level c)
          ≡ ok c')
  unfolding add_tags
  add_parsed entry tags c c' (err e) parsed made = absurd (cc (rw (add_tags, parsed) at made))
  add_parsed entry tags c c' (ok level) parsed made = (level, rw (add_tags, parsed) at made)

  add_tags-Says :
      (tags : List String) (c c' : LoggingConfig)
      → c.level ≡ []
      → add_tags to_upper tags c ≡ ok c'
      → Says c'
          (c.include_all || any says_all tags)
          (λ tag. has_key tag c.include || any (includes tag) tags)
          (λ tag. has_key tag c.exclude || any (excludes tag) tags)
  unfolding add_tags
  add_tags-Says [] c c' h made =
      let same : c ≡ c' = ground (arith, made) in
      record {
        all_eq = ground (arith, ap (λ x. x.include_all) same);
        inside_eq = λ tag. ground (arith, ap (λ x. has_key tag x.include) same);
        outside_eq = λ tag. ground (arith, ap (λ x. has_key tag x.exclude) same);
        level_eq = rw⁻¹ same h;
      }
  add_tags-Says (entry ∷ tags) c c' h made =
      let (level, made') =
        add_parsed entry tags c c' (parse_part to_upper (cut b':' (trim_space entry))) refl made in
      let first = add_tag-Says entry level c h in
      let rest =
        add_tags-Says tags (add_tag to_upper (name_of entry) level c) c' first.level_eq made' in
      record {
        all_eq = ground (arith, rest.all_eq, first.all_eq);
        inside_eq = λ tag. ground (arith, rest.inside_eq tag, first.inside_eq tag);
        outside_eq = λ tag. ground (arith, rest.outside_eq tag, first.outside_eq tag);
        level_eq = rest.level_eq;
      }

  new_config-Says :
      (config default_level : String) (c : LoggingConfig) (level : Result Level)
      → parse_log_level to_upper (if is_empty default_level then "INFO" else default_level) ≡ level
      → new_config to_upper config default_level ≡ ok c
      → Says c
          (any says_all (split b',' config))
          (λ tag. any (includes tag) (split b',' config))
          (λ tag. any (excludes tag) (split b',' config))
  unfolding new_config
  new_config-Says config default_level c (err e) parsed made =
      absurd (cc (rw (new_config, parsed) at made))
  new_config-Says config default_level c (ok level) parsed made =
      add_tags-Says (split b',' config) (empty_config to_upper config level) c refl
        (rw (new_config, parsed) at made)

  -- Under settings that parse, a tag is enabled exactly when some entry is _all or names it without
  -- a dash, and no entry names it behind a dash; the order of the entries does not matter.
  pub is_enabled_lem :
      (config default_level tag : String) (c : LoggingConfig)
      → new_config to_upper config default_level ≡ ok c
      → is_enabled c tag ≡ (
          (any (includes tag) (split b',' config) || any says_all (split b',' config))
          && not (any (excludes tag) (split b',' config)))
  unfolding is_enabled is_included is_excluded
  is_enabled_lem config default_level tag c made =
      let says = new_config-Says config default_level c _ refl made in
      rw (says.all_eq, says.inside_eq tag, says.outside_eq tag) refl

  -- The level that an entry such as "web:debug" gives is never used: under settings that parse, every
  -- tag has the default level.
  pub get_level_lem :
      (config default_level tag : String) (c : LoggingConfig)
      → new_config to_upper config default_level ≡ ok c
      → get_level c tag ≡ c.default_level
  unfolding get_level level_or
  get_level_lem config default_level tag c made =
      let says = new_config-Says config default_level c _ refl made in rw says.level_eq refl
