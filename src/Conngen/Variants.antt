-- ===== src/Conngen/Variants.antt =====
-- The text of the variants, and the functions of a package that have one.
pub mod Reading
use Prim.Native.Nat.{Ordering}
use Prim.Native.String.{compare}
use go_bootstrap.Prelude.{
  ℕ, String, Bool, not, ◌&&◌, Option, none, some, List, [], ◌∷◌, ◌++◌, ◌==◌, if◌then◌else◌,
}
use go_bootstrap.Prelude.Text.{◌+++◌, trim_suffix, has_suffix, join}
use go_bootstrap.Errors.{external, detailed, wrap, Result, ok, err}
use go_bootstrap.Conngen.{
  Expr, Field, FuncDecl, Decl, func_decl, gen_decl, File, Package, gen_file_name, queryable_field,
  declares_top_level, conn_expr, call_args, print_fields,
}

module _ (print_expr : Expr → Result String) (is_exported : String → Bool) where
  abbrev repeated : List String → String → List String → List String
  repeated [] text parts = text ∷ parts
  repeated (name ∷ []) text parts = text ∷ parts
  repeated (name ∷ other ∷ names) text parts = text ∷ repeated (other ∷ names) text parts

  result_parts : List Field → Result (List String)
  result_parts [] = ok []
  result_parts (field ∷ fields) = elim (print_expr field.of_type) [
    | err e ↦ err e
    | ok text ↦ elim (result_parts fields) [
      | err e ↦ err e
      | ok parts ↦ ok (repeated field.names text parts)
    ]
  ]

  abbrev bracketed : List String → String
  bracketed [] = ""
  bracketed (part ∷ []) = " " +++ part
  bracketed (part ∷ other ∷ parts) = " (" +++ (join ", " (part ∷ other ∷ parts) +++ ")")

  -- the names of all fields, one after another
  abbrev all_names : List Field → List String
  all_names [] = []
  all_names (field ∷ fields) = field.names ++ all_names fields

  abbrev in_brackets : List String → List String → String × String
  in_brackets [] args = ("", "")
  in_brackets (decl ∷ decls) args =
      ("[" +++ (join ", " (decl ∷ decls) +++ "]"), "[" +++ (join ", " args +++ "]"))

  -- no field is skipped: the index is past the end, as every field raises it by one
  print_type_params : List Field → Result (String × String)
  print_type_params fields = elim (print_fields print_expr is_exported 1 fields 0) [
    | err e ↦ err e
    | ok decls ↦ ok (in_brackets decls (all_names fields))
  ]

  abbrev source_of :
      FuncDecl → String → String × String → List String → String → List String → String
  source_of fn bare (type_params, type_args) params results args =
      "// "
      +++ (bare
          +++ (" is the direct db.Conn variant of "
              +++ (fn.name
                  +++ (".\nfunc "
                      +++ (bare
                          +++ (type_params
                              +++ ("("
                                  +++ (join ", " params
                                      +++ (")"
                                          +++ (results
                                              +++ (" {\n\treturn "
                                                  +++ (fn.name
                                                      +++ (type_args
                                                          +++ ("("
                                                            +++ (join ", " args
                                                            +++ ")\n}\n")))))))))))))))

  -- `declared` is whether the package has the bare name, and `conn` its expression for the pool.
  render_with : String → Bool → String → FuncDecl → ℕ → Result String
  unfolding result_parts print_type_params
  render_with bare declared conn fn tx_field =
      if declared
      then err (detailed (external "already hand-written") bare)
      else elim (print_fields print_expr is_exported 0 fn.params tx_field) [
        | err e ↦ err e
        | ok params ↦ elim (result_parts fn.results) [
          | err e ↦ err e
          | ok results ↦ elim (print_type_params fn.type_params) [
            | err e ↦ err e
            | ok type_params ↦ ok (
                source_of fn bare type_params params (bracketed results)
                  (call_args 0 fn.params tx_field conn))
          ]
        ]
      ]

  unfoldable pub render : Package → FuncDecl → ℕ → Result String
  unfolding render_with
  render pkg fn tx_field =
      let bare = trim_suffix fn.name "Tx" in
      render_with bare (declares_top_level pkg bare) (conn_expr pkg) fn tx_field

  -- the functions that have a variant, with the index of their Queryable
  abbrev pub is_candidate : FuncDecl → Bool
  is_candidate fn = not fn.has_receiver && is_exported fn.name && has_suffix fn.name "Tx"

  abbrev found : FuncDecl → Option ℕ → List (FuncDecl × ℕ) → List (FuncDecl × ℕ)
  found fn none rest = rest
  found fn (some i) rest = (fn, i) ∷ rest

  candidates_in : File → String → List Decl → List (FuncDecl × ℕ)
  candidates_in file package_name [] = []
  candidates_in file package_name (gen_decl specs ∷ decls) = candidates_in file package_name decls
  candidates_in file package_name (func_decl fn ∷ decls) =
      let rest = candidates_in file package_name decls in
      if is_candidate fn then found fn (queryable_field file package_name fn) rest else rest

  candidates : String → List File → List (FuncDecl × ℕ)
  unfolding candidates_in
  candidates package_name [] = []
  candidates package_name (file ∷ files) =
      let rest = candidates package_name files in
      if file.base_name == gen_file_name
      then rest
      else candidates_in file package_name file.decls ++ rest

  with_rendered :
      FuncDecl → Result String → Result (List (String × String)) → Result (List (String × String))
  with_rendered fn (err e) rest = err (wrap ("rendering " +++ fn.name) e)
  with_rendered fn (ok text) (err e) = err e
  with_rendered fn (ok text) (ok variants) = ok ((fn.name, text) ∷ variants)

  render_all : Package → List (FuncDecl × ℕ) → Result (List (String × String))
  unfolding with_rendered
  render_all pkg [] = ok []
  render_all pkg ((fn, i) ∷ l) = with_rendered fn (render pkg fn i) (render_all pkg l)

  -- sort.Slice by name; the functions of a package have different names
  insert_variant : String × String → List (String × String) → List (String × String)
  insert_variant v [] = v ∷ []
  insert_variant v (w ∷ l) =
      let rest = insert_variant v l in
      elim (compare w.0 v.0) [ Ordering.lt ↦ w ∷ rest | _ ↦ v ∷ w ∷ l ]

  sort_variants : List (String × String) → List (String × String)
  unfolding insert_variant
  sort_variants [] = []
  sort_variants (v ∷ l) = insert_variant v (sort_variants l)

  abbrev texts_of : List (String × String) → String
  texts_of [] = ""
  texts_of ((name, text) ∷ l) = text +++ ("\n" +++ texts_of l)

  abbrev file_of : String → List (String × String) → Option String
  file_of package_name [] = none
  file_of package_name (v ∷ l) = some (
      "// Code generated by conngen. DO NOT EDIT.\n\n// Direct db.Conn variants of this package's *Tx functions.\n\npackage "
      +++ (package_name +++ ("\n\n" +++ texts_of (v ∷ l))))

  with_variants : String → Result (List (String × String)) → Result (Option String)
  unfolding sort_variants
  with_variants name (err e) = err e
  with_variants name (ok variants) = ok (file_of name (sort_variants variants))

  unfoldable pub generate : Package → Result (Option String)
  unfolding candidates render_all with_variants
  generate pkg = with_variants pkg.name (render_all pkg (candidates pkg.name pkg.files))
