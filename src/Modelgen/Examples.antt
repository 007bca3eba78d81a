-- ===== src/Modelgen/Examples.antt =====
-- The table of users at concrete columns, and tables that the generator refuses.
use go_bootstrap.Prelude.{
  none, String, ◌≡◌, refl, Bool, true, false, not, ◌&&◌, ◌||◌, List, [], ◌∷◌, map, ◌==◌,
  if◌then◌else◌,
}
use go_bootstrap.Prelude.Text
use go_bootstrap.Prelude.Text.{◌+++◌, split, map_chars}
use go_bootstrap.Errors.{wrap, ok, err}
use go_bootstrap.Modelgen.{
  TableConfig, Column, is_composite, is_integer_key, no_mapping, field_name, receiver_name, go_type,
  quoted,
}
use go_bootstrap.Modelgen.Emitting.{
  done, failed, struct_fields, row_entries, rendered, render, Tools, generate_tables,
}
use go_bootstrap.Modelgen.Nulls.{is_nilable, go_type-is_nilable}
use go_bootstrap.Modelgen.Rows.{
  Known, listed, defaulted, field, entry, render-Known, generate_tables-unknown,
}

abbrev users : TableConfig
users = record { table = "users"; package' = "auth"; type_name = "User" }

abbrev column : String → String → Bool → Bool → Column
column name udt nullable has_default = record {
  name = name;
  udt = udt;
  nullable = nullable;
  has_default = has_default;
  is_pk = name == "id";
  comment = "";
}

abbrev id_column : Column
id_column = column "id" "int8" false false

abbrev password_hash : Column
password_hash = column "password_hash" "text" false false

abbrev roles : Column
roles = column "roles" "_text" false true

abbrev user_columns : List Column
user_columns = id_column ∷ password_hash ∷ roles ∷ []

-- the text that bin/generate writes for these columns, before gofmt and the imports tool
users_text :
    render users user_columns
    ≡ done (
        "// Code generated by modelgen from table \"users\". DO NOT EDIT.\n\npackage auth\n\n"
        +++ ("// User is the row model for the users table.\ntype User struct {\n"
            +++ ("\tID int64 `db:\"id\"`\n\tPasswordHash string `db:\"password_hash\"`\n"
                +++ ("\tRoles []string `db:\"roles\"`\n}\n\n"
                    +++ ("// ToRowMap returns the column map used to build inserts and updates.\n"
                        +++ ("// The primary key is omitted, and zero values are dropped for columns\n"
                            +++ ("// whose default lives in the database.\n"
                                +++ ("func (user User) ToRowMap() pgsql.RowMap {\n\trm := pgsql.RowMap{\n"
                                    +++ ("\t\t\"password_hash\": user.PasswordHash,\n\t\t\"roles\": user.Roles,\n\t}\n"
                                        +++ "\n\tdb.FilterUnset(rm, \"roles\")\n\n\treturn rm\n}\n")))))))))
unfolding render struct_fields go_type field_name split row_entries Text.join receiver_name
    map_chars
users_text = refl

torn_name : field_name "created__at" ≡ none
unfolding field_name split map_chars
torn_name = refl

abbrev used_at : Column
used_at = column "used_at" "timestamptz" true false

used_at_type : go_type used_at ≡ ok "*time.Time"
unfolding go_type
used_at_type = refl

go_type-is_nilable_example :
    is_nilable "*time.Time"
    ≡ (not (is_integer_key used_at) && (used_at.nullable || is_composite "*time.Time"))
go_type-is_nilable_example = go_type-is_nilable used_at "*time.Time" used_at_type

-- a comment of two lines: the second line stands in the struct as it is
broken_comment :
    struct_fields (record id_column { comment = "the key\nof a user" } ∷ [])
    ≡ done ("\t// the key\nof a user\n\tID int64 `db:\"id\"`\n" ∷ [])
unfolding struct_fields go_type field_name split Text.join
broken_comment = refl

abbrev field_of : Column → String
field_of col =
    if col.name == "id" then "ID" else if col.name == "roles" then "Roles" else "PasswordHash"

abbrev type_of : Column → String
type_of col =
    if col.name == "id" then "int64" else if col.name == "roles" then "[]string" else "string"

id_column-Known : Known field_of type_of id_column
unfolding go_type field_name split
id_column-Known = record { named = refl; typed = refl }

password_hash-Known : Known field_of type_of password_hash
unfolding go_type field_name split map_chars
password_hash-Known = record { named = refl; typed = refl }

roles-Known : Known field_of type_of roles
unfolding go_type field_name split
roles-Known = record { named = refl; typed = refl }

render-Known_example :
    render users user_columns
    ≡ done (
        rendered users (map (field field_of type_of) user_columns) (
          map (entry field_of type_of (receiver_name "User")) (listed user_columns),
          map (λ col. quoted col.name) (defaulted user_columns),
        ))
render-Known_example =
    render-Known field_of type_of users user_columns
      (id_column-Known, (password_hash-Known, (roles-Known, tt)))

-- a table with a column of a type that the generator does not know
abbrev places : TableConfig
places = record { table = "places"; package' = "geo"; type_name = "Place" }

abbrev spot : Column
spot = column "spot" "point" false false

abbrev demo_tools : Tools
demo_tools = record {
  query =
      λ table. ok (ok (if table == "users" then user_columns else id_column ∷ spot ∷ roles ∷ []));
  process = λ path src. ok path;
  write_file = λ path out. ok tt;
  path_join = λ dir name. dir +++ ("/" +++ name);
}

users_written :
    generate_tables demo_tools (users ∷ []) []
    ≡ (done tt, ("auth/users.gen.go", "auth/users.gen.go") ∷ [])
unfolding generate_tables render struct_fields go_type field_name split row_entries
users_written = refl

spot_type : go_type spot ≡ err (no_mapping spot)
unfolding go_type
spot_type = refl

generate_tables-unknown_example : generate_tables demo_tools (users ∷ places ∷ users ∷ []) [] ≡ (
  failed (wrap ("generating " +++ "places") (no_mapping spot)),
  ("auth/users.gen.go", "auth/users.gen.go") ∷ [],
)
generate_tables-unknown_example =
    generate_tables-unknown demo_tools field_of type_of (users ∷ []) (users ∷ []) places
      (id_column ∷ []) (roles ∷ []) spot (no_mapping spot) []
      (("auth/users.gen.go", "auth/users.gen.go") ∷ []) users_written refl (id_column-Known, tt)
      spot_type
