-- ===== src/Appname.antt =====
-- Package appname: the names that a project takes from its module path. The build information and the
-- table of lower-case letters are parameters.
mod Examples
use Prim.Native.Char.{Char, code}
use Prim.Native.String
use go_bootstrap.Prelude.{
  ℕ, String, ◌≡◌, refl, Bool, true, false, ◌&&◌, ◌||◌, Option, none, some, List, [], ◌∷◌, leb,
  nat_eq, Bool-cases, inl, inr, if◌then◌else◌,
}
use go_bootstrap.Prelude.Text.{is_empty, split, trim, map_chars}

abbrev last_part : List String → String
last_part [] = ""
last_part (part ∷ []) = part
last_part (part ∷ next ∷ parts) = last_part (next ∷ parts)

-- path.Base of a path that is not empty
abbrev pub path_base : String → String
path_base path =
    let inner = trim b'/' path in if is_empty inner then "/" else last_part (split b'/' inner)

-- `info` is the path of the main module that debug.ReadBuildInfo finds
unfoldable pub base : Option String → String
base none = ""
base (some path) = if is_empty path then "" else path_base path

abbrev pub is_identifier : Char → Bool
is_identifier c =
    (leb 97 (code c) && leb (code c) 122)
    || (leb 48 (code c) && leb (code c) 57)
    || nat_eq (code c) b'_'

abbrev underscore : Char
underscore = String.char_at "_" 0

abbrev flatten : Char → Char
flatten c = if is_identifier c then c else underscore

unfoldable pub postgres : (String → String) → Option String → String
postgres to_lower info = map_chars flatten (to_lower (base info))

abbrev pub all_chars : (Char → Bool) → String → Bool
all_chars p String.[] = true
all_chars p (String.◌∷◌ c s) = p c && all_chars p s

flatten-is_identifier : (c : Char) → is_identifier (flatten c) ≡ true
flatten-is_identifier c = elim (Bool-cases (is_identifier c)) [
  | inl fine ↦ rw (fine, fine) refl
  | inr strange ↦ rw strange refl
]

map_chars-flatten : (s : String) → all_chars is_identifier (map_chars flatten s) ≡ true
unfolding map_chars
map_chars-flatten String.[] = refl
map_chars-flatten (String.◌∷◌ c s) = rw (flatten-is_identifier c, map_chars-flatten s) refl

-- Every character of a database's name is a lower-case ASCII letter, a digit or an underscore, whatever
-- the module path is.
pub postgres-is_identifier :
    (to_lower : String → String) (info : Option String)
    → all_chars is_identifier (postgres to_lower info) ≡ true
unfolding postgres
postgres-is_identifier to_lower info = map_chars-flatten (to_lower (base info))
