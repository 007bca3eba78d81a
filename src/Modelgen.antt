-- ===== src/Modelgen.antt =====
-- cmd/modelgen/main.go: the row types that are generated from the tables of the database. Names of columns are taken to begin every part with an ASCII character, and quoted names
-- to have printable characters only.
pub mod Naming
pub mod Emitting
pub mod Rows
pub mod Nulls
mod Examples
use Prim.Native.Char.{Char, code}
use Prim.Native.String
use go_bootstrap.Prelude.{
  ℕ, ◌-◌, String, Bool, true, false, not, ◌&&◌, ◌||◌, Option, none, some, List, [], ◌∷◌, ◌++◌, ◌==◌,
  map, leb, nat_eq, if◌then◌else◌,
}
use text.Mathlib.Text.{starts_with}
use go_bootstrap.Prelude.Text.{◌+++◌, is_empty, split, join, map_chars}
use go_bootstrap.Errors.{Error, sentinel, external, Result, ok, err}

pub record TableConfig : Type 0 where
  pub table : String
  pub package' : String
  pub type_name : String

pub record Column : Type 0 where
  pub name : String
  -- the name of the column's type in Postgres
  pub udt : String
  pub nullable : Bool
  pub has_default : Bool
  pub is_pk : Bool
  pub comment : String

-- strings.ToUpper and strings.ToLower of an ASCII character
abbrev to_upper : Char → Char
to_upper c =
    if leb 97 (code c) && leb (code c) 122
    then String.char_at "ABCDEFGHIJKLMNOPQRSTUVWXYZ" (code c - 97)
    else c

abbrev pub to_lower : Char → Char
to_lower c =
    if leb 65 (code c) && leb (code c) 90
    then String.char_at "abcdefghijklmnopqrstuvwxyz" (code c - 65)
    else c

-- one turn of the loop of fieldName; none is the panic of part[:1], which an empty part does not have
abbrev pub part_name : String → Option String
part_name String.[] = none
part_name (String.◌∷◌ c s) =
    if String.◌∷◌ c s == "id" then some "ID" else some (String.◌∷◌ (to_upper c) s)

abbrev pub joined : Option String → Option String → Option String
joined none rest = none
joined (some part) none = none
joined (some part) (some rest) = some (part +++ rest)

-- the loop of fieldName, with the parts joined
abbrev pub part_names : List String → Option String
part_names [] = some ""
part_names (part ∷ parts) = joined (part_name part) (part_names parts)

unfoldable pub field_name : String → Option String
field_name column = part_names (split b'_' column)

unfoldable pub receiver_name : String → String
receiver_name type_name =
    let name = map_chars to_lower type_name in
    if name == "db" || name == "pgsql" || name == "time" then "m" else name

-- the keys of the table of base types, with the Go types
abbrev pub base_types : List (String × String)
base_types =
    ("int2", "int")
    ∷ ("int4", "int")
    ∷ ("int8", "int64")
    ∷ ("varchar", "string")
    ∷ ("text", "string")
    ∷ ("bool", "bool")
    ∷ ("float4", "float64")
    ∷ ("float8", "float64")
    ∷ ("timestamp", "time.Time")
    ∷ ("timestamptz", "time.Time")
    ∷ ("jsonb", "[]byte")
    ∷ ("_varchar", "[]string")
    ∷ ("_text", "[]string")
    ∷ ("_int4", "[]int")
    ∷ ("_int8", "[]int64")
    ∷ ("uuid", "string")
    ∷ ("citext", "string")
    ∷ ("date", "time.Time")
    ∷ ("bytea", "[]byte")
    ∷ ("numeric", "string")
    ∷ ("hstore", "map[string]string")
    ∷ []

abbrev pub lookup : List (String × String) → String → Option String
lookup [] key = none
lookup ((k, v) ∷ entries) key = if k == key then some v else lookup entries key

-- %q of a text of printable characters
abbrev escaped : String → String
escaped String.[] = ""
escaped (String.◌∷◌ c s) =
    if nat_eq (code c) 34 || nat_eq (code c) 92
    then "\\" +++ String.◌∷◌ c (escaped s)
    else String.◌∷◌ c (escaped s)

abbrev pub quoted : String → String
quoted s = "\"" +++ (escaped s +++ "\"")

abbrev pub no_mapping : Column → Error
no_mapping col = sentinel (
    external (
      "column "
      +++ (col.name
          +++ (": no Go mapping for Postgres type "
              +++ (quoted col.udt +++ " — add one to modelgen")))))

-- a slice or a map, which carries its own null
abbrev pub is_composite : String → Bool
is_composite base = starts_with base "[]" || starts_with base "map["

-- a primary key of an integer type
abbrev pub is_integer_key : Column → Bool
is_integer_key col = col.is_pk && (col.udt == "int4" || col.udt == "int8")

abbrev pub wrapped : Column → Option String → Result String
wrapped col none = err (no_mapping col)
wrapped col (some base) =
    if col.nullable && not (is_composite base) then ok ("*" +++ base) else ok base

unfoldable pub go_type : Column → Result String
go_type col = if is_integer_key col then ok "int64" else wrapped col (lookup base_types col.udt)
