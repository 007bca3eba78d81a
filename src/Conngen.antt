-- ===== src/Conngen.antt =====
-- cmd/conngen/main.go: the variants of a package's *Tx functions on the pool. The syntax tree is what
-- the generator reads of go/ast; the printer of types (go/printer) and ast.IsExported are parameters.
-- The files that it reads and writes are not modelled: the result is the text for the imports tool,
-- or none where a stale file is removed.
pub mod Forwarding
pub mod Variants
pub mod Files
mod Examples
use go_bootstrap.Prelude.{
  ℕ, suc, String, Bool, true, false, not, ◌&&◌, ◌||◌, Option, none, some, List, [], ◌∷◌, ◌++◌, ◌==◌,
  any, nat_eq, if◌then◌else◌, is_some,
}
use go_bootstrap.Prelude.Text.{◌+++◌, split, trim, trim_suffix, has_suffix, join}
use go_bootstrap.Errors.{Error, external, detailed, wrap, Result, ok, err}

pub data Expr : Type 0 where
  ident : String → Expr
  -- an identifier with a selection, and a selection of anything else
  selector : (pkg selected : String) → Expr
  other_selector : (selected : String) → Expr
  ellipsis : Expr → Expr
  other_expr : (text : String) → Expr

pub record Field : Type 0 where
  pub names : List String
  pub of_type : Expr

pub record Import : Type 0 where
  pub name : Option String
  -- the literal, with its quotes
  pub path : String

pub record FuncDecl : Type 0 where
  pub name : String
  pub has_receiver : Bool
  pub type_params : List Field
  pub params : List Field
  pub results : List Field

pub data Spec : Type 0 where
  type_spec : String → Spec
  value_spec : List String → Spec
  import_spec : Spec

pub data Decl : Type 0 where
  func_decl : FuncDecl → Decl
  gen_decl : List Spec → Decl

pub record File : Type 0 where
  pub base_name : String
  pub imports : List Import
  pub decls : List Decl

pub record Package : Type 0 where
  pub name : String
  pub files : List File

abbrev pub gen_file_name : String
gen_file_name = "conn.gen.go"

abbrev last_of : List String → String
last_of [] = ""
last_of (s ∷ []) = s
last_of (s ∷ t ∷ l) = last_of (t ∷ l)

-- the name under which a file knows an import
abbrev import_name : Import → String
import_name imp = elim imp.name [
  | some name ↦ name
  | none ↦ last_of (split b'/' (trim b'"' imp.path))
]

unfoldable pub import_path : List Import → String → String
import_path [] local = ""
import_path (imp ∷ imports) local =
    let rest = import_path imports local in
    if import_name imp == local then trim b'"' imp.path else rest

unfoldable pub is_queryable : File → String → Expr → Bool
is_queryable file package_name (ident name) = package_name == "db" && name == "Queryable"
is_queryable file package_name (selector pkg selected) =
    if not (selected == "Queryable") then false else has_suffix (import_path file.imports pkg) "/db"
is_queryable file package_name (other_selector selected) = false
is_queryable file package_name (ellipsis e) = false
is_queryable file package_name (other_expr text) = false

abbrev is_single : List String → Bool
is_single [] = false
is_single (name ∷ []) = true
is_single (name ∷ other ∷ names) = false

-- the loop of queryableField, from an index on; none is the -1
unfoldable pub queryable_from : (Expr → Bool) → ℕ → List Field → Option ℕ
queryable_from queryable i [] = none
queryable_from queryable i (field ∷ fields) =
    let rest = queryable_from queryable (suc i) fields in
    if queryable field.of_type then if is_single field.names then some i else none else rest

unfoldable pub queryable_field : File → String → FuncDecl → Option ℕ
queryable_field file package_name fn = queryable_from (is_queryable file package_name) 0 fn.params

spec_declares : String → Spec → Bool
spec_declares name (type_spec n) = n == name
spec_declares name (value_spec names) = any (λ n. n == name) names
spec_declares name import_spec = false

decl_declares : String → Decl → Bool
unfolding spec_declares
decl_declares name (func_decl fn) = not fn.has_receiver && fn.name == name
decl_declares name (gen_decl specs) = any (spec_declares name) specs

unfoldable pub declares_top_level : Package → String → Bool
unfolding decl_declares
declares_top_level pkg name =
    any
      (λ (file : File).
        not (file.base_name == gen_file_name) && any (decl_declares name) file.decls)
      pkg.files

unfoldable pub conn_expr : Package → String
conn_expr pkg = if declares_top_level pkg "Conn" then "Conn" else "db.Conn"

abbrev is_variadic : Expr → Bool
is_variadic (ellipsis e) = true
is_variadic (ident name) = false
is_variadic (selector pkg selected) = false
is_variadic (other_selector selected) = false
is_variadic (other_expr text) = false

abbrev pub forwarded : Bool → List String → List String
forwarded variadic [] = []
forwarded variadic (name ∷ names) =
    (if variadic then name +++ "..." else name) ∷ forwarded variadic names

-- the loop of callArgs, from an index on
unfoldable pub call_args : ℕ → List Field → ℕ → String → List String
call_args i [] tx_field conn = []
call_args i (field ∷ fields) tx_field conn =
    let rest = call_args (suc i) fields tx_field conn in
    if nat_eq i tx_field
    then conn ∷ rest
    else forwarded (is_variadic field.of_type) field.names ++ rest

module _ (print_expr : Expr → Result String) (is_exported : String → Bool) where
  abbrev pub printed : Field → Result String → Result (List String) → Result (List String)
  printed field (ok text) (ok parts) = ok ((join ", " field.names +++ (" " +++ text)) ∷ parts)
  printed field (ok text) (err e) = err e
  printed field (err e) rest = err e

  -- the loop of printFields, from an index on
  unfoldable pub print_fields : ℕ → List Field → ℕ → Result (List String)
  print_fields i [] skip = ok []
  print_fields i (field ∷ fields) skip =
      let rest = print_fields (suc i) fields skip in
      if nat_eq i skip then rest else printed field (print_expr field.of_type) rest
