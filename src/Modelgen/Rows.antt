-- ===== src/Modelgen/Rows.antt =====
-- What cmd/modelgen/main.go renders: the fields of the struct, the keys of the row map, and what a
-- table with a column that it does not know leaves unwritten.
use go_bootstrap.Prelude.{
  String, ◌≡◌, refl, ap, not, some, List, [], ◌∷◌, ◌++◌, map, keep, All, Bool-cases, inl, inr,
}
use go_bootstrap.Prelude.Text.{◌+++◌}
use go_bootstrap.Errors.{Error, wrap, ok, err}
use go_bootstrap.Modelgen.{TableConfig, Column, field_name, receiver_name, go_type, quoted}
use go_bootstrap.Modelgen.Emitting.{
  Outcome, done, failed, panics, field_lines, struct_fields, entry_line, row_entries, rendered,
  render, Tools, Written, generate, next_table, generate_tables,
}

-- the columns of the row map, and those of them with a default in the database
abbrev pub listed : List Column → List Column
listed = keep (λ col. not col.is_pk)

abbrev pub defaulted : List Column → List Column
defaulted columns = keep (λ col. col.has_default) (listed columns)

module _ (name type : Column → String) where
  -- A column that the generator knows: its field has a name and a type.
  pub record Known (col : Column) : Type 0 where
    pub named : field_name col.name ≡ some (name col)
    pub typed : go_type col ≡ ok (type col)

  abbrev pub field : Column → String
  field col = field_lines col (type col) (name col)

  abbrev pub entry : String → Column → String
  entry receiver col = entry_line receiver col (name col)

  struct_fields-Known :
      (columns : List Column) → All Known columns → struct_fields columns ≡ done (map field columns)
  unfolding struct_fields
  struct_fields-Known [] h = refl
  struct_fields-Known (col ∷ columns) h =
      rw (h.0.typed, h.0.named, struct_fields-Known columns h.1) refl

  struct_fields-unknown :
      (before after : List Column) (col : Column) (e : Error)
      → All Known before
      → go_type col ≡ err e
      → struct_fields (before ++ col ∷ after) ≡ failed e
  unfolding struct_fields
  struct_fields-unknown [] after col e h k = rw k refl
  struct_fields-unknown (b ∷ before) after col e h k =
      rw (h.0.typed, h.0.named, struct_fields-unknown before after col e h.1 k) refl

  row_entries-Known :
      (receiver : String) (columns : List Column)
      → All Known columns
      → row_entries receiver columns
        ≡ done (
          map (entry receiver) (listed columns),
          map (λ col. quoted col.name) (defaulted columns),
        )
  unfolding row_entries
  row_entries-Known receiver [] h = refl
  row_entries-Known receiver (col ∷ columns) h = elim (Bool-cases col.is_pk) [
    | inl pk ↦ rw (pk, row_entries-Known receiver columns h.1) refl
    | inr other ↦ elim (Bool-cases col.has_default) [
      | inl given ↦ simp (other, h.0.named, row_entries-Known receiver columns h.1, given)
      | inr plain ↦ simp (other, h.0.named, row_entries-Known receiver columns h.1, plain)
    ]
  ]

  -- A table whose columns all have a Go type and a field name is rendered: the struct has one field for
  -- each column, in the table's order; the row map has one entry for each column outside the primary
  -- key, with the column's name as its key; and FilterUnset is called for exactly those of them that
  -- have a default in the database.
  pub render-Known :
      (table : TableConfig) (columns : List Column)
      → All Known columns
      → render table columns
        ≡ done (
            rendered table (map field columns) (
              map (entry (receiver_name table.type_name)) (listed columns),
              map (λ col. quoted col.name) (defaulted columns),
            ))
  unfolding render
  render-Known table columns h =
      rw
        (struct_fields-Known columns h, row_entries-Known (receiver_name table.type_name) columns h)
        refl

  render-unknown :
      (table : TableConfig) (before after : List Column) (col : Column) (e : Error)
      → All Known before
      → go_type col ≡ err e
      → render table (before ++ col ∷ after) ≡ failed e
  unfolding render
  render-unknown table before after col e h k =
      rw (struct_fields-unknown before after col e h k) refl

  module _ (tools : Tools) where
    generate-unknown :
        (table : TableConfig) (before after : List Column) (col : Column) (e : Error)
        (files : Written)
        → All Known before
        → go_type col ≡ err e
        → tools.query table.table ≡ ok (ok (before ++ col ∷ after))
        → generate tools table files ≡ (failed e, files)
    unfolding generate
    generate-unknown table [] after col e files h k q =
        rw (q, render-unknown table [] after col e h k) refl
    generate-unknown table (b ∷ before) after col e files h k q =
        rw (q, render-unknown table (b ∷ before) after col e h k) refl

module _ (tools : Tools) where
  passed :
      (front all' : Written → Outcome (Unit {0}) × Written) (table : TableConfig)
      (r target : Outcome (Unit {0}) × Written) (kept : Written)
      → next_table tools front r table ≡ (done tt, kept)
      → ((files : Written) → front files ≡ (done tt, kept) → all' files ≡ target)
      → next_table tools all' r table ≡ target
  unfolding next_table
  passed front all' table (done u, files) target kept h k = k files h
  passed front all' table (failed e, files) target kept h k = cc
  passed front all' table (panics, files) target kept h k = cc

  tables-unknown :
      (front rest : List TableConfig) (table : TableConfig) (e : Error) (files kept : Written)
      → generate_tables tools front files ≡ (done tt, kept)
      → generate tools table kept ≡ (failed e, kept)
      → generate_tables tools (front ++ table ∷ rest) files
        ≡ (failed (wrap ("generating " +++ table.table) e), kept)
  unfolding generate_tables next_table
  tables-unknown [] rest table e files kept h k =
      let same : files ≡ kept = ap (λ r. r.1) h in rw (same, k) refl
  tables-unknown (f ∷ front) rest table e files kept h k =
      passed (generate_tables tools front) (generate_tables tools (front ++ table ∷ rest)) f
        (generate tools f files) _ kept h
        (λ files done'. tables-unknown front rest table e files kept done' k)

  -- A column of a type that has no Go type, behind columns that the generator knows, ends the run with
  -- that column's error under the table's name: the files of the tables before it, which were generated,
  -- stay written, and no file of this table or of one behind it is written.
  pub generate_tables-unknown :
      (name type : Column → String) (front rest : List TableConfig) (table : TableConfig)
      (before after : List Column) (col : Column) (e : Error) (files kept : Written)
      → generate_tables tools front files ≡ (done tt, kept)
      → tools.query table.table ≡ ok (ok (before ++ col ∷ after))
      → All (Known name type) before
      → go_type col ≡ err e
      → generate_tables tools (front ++ table ∷ rest) files
        ≡ (failed (wrap ("generating " +++ table.table) e), kept)
  generate_tables-unknown name type front rest table before after col e files kept h q known k =
      tables-unknown front rest table e files kept h
        (generate-unknown name type tools table before after col e kept known k q)
