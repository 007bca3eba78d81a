-- ===== src/Modelgen/Emitting.antt =====
-- render, generate and main of cmd/modelgen/main.go. The connection, the imports tool and the file
-- system are parameters; the text of the query and the reading of the configuration are not modelled.
use go_bootstrap.Prelude.{String, Option, none, some, List, [], ◌∷◌, if◌then◌else◌}
use go_bootstrap.Prelude.Text.{◌+++◌, is_empty, join}
use go_bootstrap.Errors.{Error, sentinel, external, wrap, Result, ok, err}
use go_bootstrap.Modelgen.{TableConfig, Column, field_name, receiver_name, go_type, quoted}

-- A call returns, returns an error, or panics.
pub data Outcome {ℓ} (A : Type ℓ) : Type ℓ where
  done : A → Outcome A
  failed : Error → Outcome A
  panics : Outcome A

module _ {ℓ} {A B : Type ℓ} where
  infixl 5 ◌>>=◌
  abbrev pub ◌>>=◌ : Outcome A → (A → Outcome B) → Outcome B
  ◌>>=◌ (done a) f = f a
  ◌>>=◌ (failed e) f = failed e
  ◌>>=◌ panics f = panics

abbrev pub tried {ℓ} : {A : Type ℓ} → Result A → Outcome A
tried (ok a) = done a
tried (err e) = failed e

abbrev pub concat : List String → String
concat = join ""

abbrev pub named : Option String → Outcome String
named none = panics
named (some name) = done name

-- the lines of a field of the struct
abbrev pub field_lines : Column → String → String → String
field_lines col type name = concat (
    (if is_empty col.comment then "" else concat ("\t// " ∷ col.comment ∷ "\n" ∷ []))
    ∷ "\t"
    ∷ name
    ∷ " "
    ∷ type
    ∷ " `db:"
    ∷ quoted col.name
    ∷ "`\n"
    ∷ [])

-- the first loop of render
unfoldable pub struct_fields : List Column → Outcome (List String)
struct_fields [] = done []
struct_fields (col ∷ columns) = do
  type ← tried (go_type col)
  name ← named (field_name col.name)
  rest ← struct_fields columns
  done (field_lines col type name ∷ rest)

abbrev pub entry_line : String → Column → String → String
entry_line receiver col name =
    concat ("\t\t" ∷ quoted col.name ∷ ": " ∷ receiver ∷ "." ∷ name ∷ ",\n" ∷ [])

abbrev with_entry : Column → String → List String × List String → List String × List String
with_entry col line (entries, defaulted) =
    (line ∷ entries, if col.has_default then quoted col.name ∷ defaulted else defaulted)

-- the second loop of render: the entries of the row map, and the columns with a default
unfoldable pub row_entries : String → List Column → Outcome (List String × List String)
row_entries receiver [] = done ([], [])
row_entries receiver (col ∷ columns) =
    let rest = row_entries receiver columns in
    if col.is_pk then rest else do
      name ← named (field_name col.name)
      found ← rest
      done (with_entry col (entry_line receiver col name) found)

abbrev pub filter_line : List String → String
filter_line [] = ""
filter_line (name ∷ names) =
    concat ("\n\tdb.FilterUnset(rm, " ∷ join ", " (name ∷ names) ∷ ")\n" ∷ [])

abbrev pub rendered : TableConfig → List String → List String × List String → String
rendered table fields (entries, defaulted) =
    let receiver = receiver_name table.type_name in
    concat (
      "// Code generated by modelgen from table "
      ∷ quoted table.table
      ∷ ". DO NOT EDIT.\n\n"
      ∷ "package "
      ∷ table.package'
      ∷ "\n\n"
      ∷ "// "
      ∷ table.type_name
      ∷ " is the row model for the "
      ∷ table.table
      ∷ " table.\n"
      ∷ "type "
      ∷ table.type_name
      ∷ " struct {\n"
      ∷ concat fields
      ∷ "}\n\n"
      ∷ "// ToRowMap returns the column map used to build inserts and updates.\n"
      ∷ "// The primary key is omitted, and zero values are dropped for columns\n"
      ∷ "// whose default lives in the database.\n"
      ∷ "func ("
      ∷ receiver
      ∷ " "
      ∷ table.type_name
      ∷ ") ToRowMap() pgsql.RowMap {\n"
      ∷ "\trm := pgsql.RowMap{\n"
      ∷ concat entries
      ∷ "\t}\n"
      ∷ filter_line defaulted
      ∷ "\n\treturn rm\n}\n"
      ∷ [])

unfoldable pub render : TableConfig → List Column → Outcome String
render table columns = do
  fields ← struct_fields columns
  entries ← row_entries (receiver_name table.type_name) columns
  done (rendered table fields entries)

-- What the generator calls: the query of the columns (its failure, and that of the scan of the rows),
-- the imports tool, the file system, and the joining of paths.
pub record Tools : Type 0 where
  pub query : String → Result (Result (List Column))
  pub process : String → String → Result String
  pub write_file : String → String → Result (Unit {0})
  pub path_join : String → String → String

-- the files that are written, the last first
abbrev pub Written : Type 0
Written = List (String × String)

module _ (tools : Tools) where
  no_columns : TableConfig → Error
  no_columns table =
      sentinel (external ("table " +++ (table.table +++ " has no columns (does it exist?)")))

  introspected : TableConfig → Result (Result (List Column)) → Outcome (List Column)
  unfolding no_columns
  introspected table (err e) = failed (wrap "introspecting" e)
  introspected table (ok (err e)) = failed (wrap "scanning columns" e)
  introspected table (ok (ok [])) = failed (no_columns table)
  introspected table (ok (ok (col ∷ columns))) = done (col ∷ columns)

  written : String → String → Result (Unit {0}) → Written → Outcome (Unit {0}) × Written
  written path out (ok u) files = (done u, (path, out) ∷ files)
  written path out (err e) files = (failed (wrap ("writing " +++ path) e), files)

  -- The error shows the text that the tool refused behind its cause; that text is left out.
  processed : String → Result String → Written → Outcome (Unit {0}) × Written
  unfolding written
  processed path (ok out) files = written path out (tools.write_file path out) files
  processed path (err e) files = (failed (wrap "resolving imports" e), files)

  output_path : TableConfig → String
  output_path table = tools.path_join table.package' (table.table +++ ".gen.go")

  emit : TableConfig → Outcome String → Written → Outcome (Unit {0}) × Written
  unfolding processed output_path
  emit table (done src) files =
      processed (output_path table) (tools.process (output_path table) src) files
  emit table (failed e) files = (failed e, files)
  emit table panics files = (panics, files)

  unfoldable pub generate : TableConfig → Written → Outcome (Unit {0}) × Written
  unfolding introspected emit
  generate table files =
      emit table (introspected table (tools.query table.table) >>= render table) files

  unfoldable pub next_table :
      (Written → Outcome (Unit {0}) × Written)
      → Outcome (Unit {0}) × Written
      → TableConfig
      → Outcome (Unit {0}) × Written
  next_table rest (done u, files) table = rest files
  next_table rest (failed e, files) table = (failed (wrap ("generating " +++ table.table) e), files)
  next_table rest (panics, files) table = (panics, files)

  -- the loop of main, whose first failure ends the process
  unfoldable pub generate_tables : List TableConfig → Written → Outcome (Unit {0}) × Written
  unfolding generate next_table
  generate_tables [] files = (done tt, files)
  generate_tables (table ∷ tables) files =
      next_table (generate_tables tables) (generate table files) table
