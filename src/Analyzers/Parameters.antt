-- ===== src/Analyzers/Parameters.antt =====
-- txparam reports the transaction parameters that a body never mentions.
use mathlib.Core.List.{map-append}
use go_bootstrap.Prelude.{
  String, ◌≡◌, refl, Bool, true, false, not, ◌&&◌, Option, none, some, List, [], ◌∷◌, ◌++◌, ◌==◌,
  map, any, keep, keep-append, concat_map, append-nil, append_assoc, Bool-cases, inl, inr,
  if◌then◌else◌, ◌∙◌, ap, sym,
}
use go_bootstrap.Analyzers.{
  Object, Ident, Field, Node, ident, selector, call, func_decl, func_decl_without_body, other,
  inspect,
}
use go_bootstrap.Analyzers.Rules.{
  File, Pass, is_queryable, Unused, defined, check_names, check_params, visit_func, func_files,
  run_txparam,
}
use go_bootstrap.Analyzers.Traversal.{nodes, inspect-before}
use go_bootstrap.Analyzers.Uses.{mentions, used_in_lem}
use go_bootstrap.Analyzers.Confinement.{held}

-- a name that a function declares and whose object its body never mentions
abbrev pub never_mentioned : Node → Option Object → Bool
never_mentioned body none = false
never_mentioned body (some obj) = not (any (mentions obj) (nodes body))

abbrev pub is_unused : Node → Ident → Bool
is_unused body name = not (name.name == "_") && never_mentioned body name.defs

abbrev pub report_of : String → Ident → Unused
report_of fn name = (name.pos, (name.name, fn))

-- the names of a function's parameters of type db.Queryable
abbrev pub queryables : List Field → List Ident
queryables params =
    concat_map (λ field. field.names) (keep (λ field. is_queryable field.type) params)

abbrev pub unused_params : Node → List Unused
unused_params (func_decl fn header body) =
    map (report_of fn.name) (keep (is_unused body) (queryables fn.params))
unused_params (ident i) = []
unused_params (selector x sel) = []
unused_params (call pos fun args) = []
unused_params (func_decl_without_body fn header) = []
unused_params (other children) = []

module _ (fn : String) (body : Node) where
  defined_lem :
      (name : Ident) (def : Option Object) (reports : List Unused)
      → defined fn body name def reports
        ≡ reports ++ (if never_mentioned body def then report_of fn name ∷ [] else [])
  defined_lem name none reports = sym (append-nil reports)
  defined_lem name (some obj) reports = elim (Bool-cases (any (mentions obj) (nodes body))) [
    | inl there ↦ rw (used_in_lem obj body, there) (sym (append-nil reports))
    | inr absent ↦ rw (used_in_lem obj body, absent) refl
  ]

  -- one turn of the loop over the names of a field
  named_lem :
      (name : Ident) (reports : List Unused)
      → (if name.name == "_" then reports else defined fn body name name.defs reports)
        ≡ reports ++ (if is_unused body name then report_of fn name ∷ [] else [])
  named_lem name reports = elim (Bool-cases (name.name == "_")) [
    | inl blank ↦ rw blank (sym (append-nil reports))
    | inr named ↦ rw named (defined_lem name name.defs reports)
  ]

  reported :
      (unused : Bool) (name : Ident) (names : List Ident) (reports : List Unused)
      → (reports ++ (if unused then report_of fn name ∷ [] else [])) ++ map (report_of fn) names
        ≡ reports ++ map (report_of fn) (if unused then name ∷ names else names)
  reported true name names reports =
      append_assoc reports (report_of fn name ∷ []) (map (report_of fn) names)
  reported false name names reports = rw (append-nil reports) refl

  check_names_lem :
      (names : List Ident) (reports : List Unused)
      → check_names fn body names reports
        ≡ reports ++ map (report_of fn) (keep (is_unused body) names)
  unfolding check_names
  check_names_lem [] reports = sym (append-nil reports)
  check_names_lem (name ∷ names) reports =
      ap (check_names fn body names) (named_lem name reports)
      ∙ (check_names_lem names
            (reports ++ (if is_unused body name then report_of fn name ∷ [] else []))
          ∙ reported (is_unused body name) name (keep (is_unused body) names) reports)

  both :
      (names rest : List Ident) (reports : List Unused)
      → (reports ++ map (report_of fn) (keep (is_unused body) names))
          ++ map (report_of fn) (keep (is_unused body) rest)
        ≡ reports ++ map (report_of fn) (keep (is_unused body) (names ++ rest))
  both names rest reports =
      append_assoc reports (map (report_of fn) (keep (is_unused body) names)) _
      ∙ ap (λ l. reports ++ l)
          (sym (
            ap (map (report_of fn)) (keep-append (is_unused body) names rest)
            ∙ map-append (report_of fn) (keep (is_unused body) names) (keep (is_unused body) rest)))

  check_params_lem :
      (fields : List Field) (reports : List Unused)
      → check_params fn body fields reports
        ≡ reports ++ map (report_of fn) (keep (is_unused body) (queryables fields))
  unfolding check_params
  check_params_lem [] reports = sym (append-nil reports)
  check_params_lem (field ∷ fields) reports = elim (Bool-cases (is_queryable field.type)) [
    | inl queryable ↦ rw queryable (
        check_params_lem fields (check_names fn body field.names reports)
        ∙ (ap (λ l. l ++ map (report_of fn) (keep (is_unused body) (queryables fields)))
              (check_names_lem field.names reports)
            ∙ both field.names (queryables fields) reports))
    | inr plain ↦ rw plain (check_params_lem fields reports)
  ]

visit_func-adds :
    (n : Node) (reports : List Unused) → visit_func n reports ≡ (reports ++ unused_params n, true)
unfolding visit_func
visit_func-adds (func_decl fn header body) reports =
    ap (λ l. (l, true)) (check_params_lem fn.name body fn.params reports)
visit_func-adds (ident i) reports = rw (append-nil reports) refl
visit_func-adds (selector x sel) reports = rw (append-nil reports) refl
visit_func-adds (call pos fun args) reports = rw (append-nil reports) refl
visit_func-adds (func_decl_without_body fn header) reports = rw (append-nil reports) refl
visit_func-adds (other children) reports = rw (append-nil reports) refl

func_files_lem :
    (files : List File) (reports : List Unused)
    → func_files files reports
      ≡ reports ++ held unused_params (keep (λ file. not file.is_generated) files)
unfolding func_files
func_files_lem [] reports = sym (append-nil reports)
func_files_lem (file ∷ files) reports = elim (Bool-cases file.is_generated) [
  | inl generated ↦ simp (generated, func_files_lem files reports)
  | inr written ↦
      let step : func_files files (inspect visit_func file.node reports)
          ≡ reports
            ++ (concat_map unused_params (nodes file.node)
                ++ held unused_params (keep (λ file. not file.is_generated) files)) =
        func_files_lem files (inspect visit_func file.node reports)
        ∙ inspect-before visit_func unused_params visit_func-adds file.node reports
            (held unused_params (keep (λ file. not file.is_generated) files)) in
      simp (written, step)
]

-- txparam reports, in the files that are not generated and for the functions that have a body, exactly
-- the parameters of type db.Queryable with a name, not the blank one, whose object no identifier of the
-- body denotes: the search of a body that stops at the first use misses none, and each parameter is
-- reported once, in the order of the declarations.
pub run_txparam_lem :
    (pass : Pass)
    → run_txparam pass ≡ held unused_params (keep (λ file. not file.is_generated) pass.files)
unfolding run_txparam
run_txparam_lem pass = func_files_lem pass.files []
