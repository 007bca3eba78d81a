-- ===== src/Analyzers/Rules.antt =====
-- The rules of the three analyzers: what each reports.
use go_bootstrap.Prelude.{
  ℕ, String, Bool, true, false, not, ◌&&◌, ◌||◌, Option, none, some, List, [], ◌∷◌, ◌++◌, ◌==◌,
  if◌then◌else◌,
}
use text.Mathlib.Text.{starts_with}
use go_bootstrap.Prelude.Text.{has_suffix}
use go_bootstrap.Analyzers.{
  Pkg, GoType, named, pointer, other_type, Object, var, func, other_object, is_object, object_id,
  Ident, Field, Node, ident, selector, call, func_decl, func_decl_without_body, other, inspect,
}

-- a file of a pass: its base name, whether ast.IsGenerated says that it is generated, and its tree
pub record File : Type 0 where
  pub base_name : String
  pub is_generated : Bool
  pub node : Node

pub record Pass : Type 0 where
  pub package_name : String
  pub files : List File

-- connconfine

abbrev is_pkg : String → Option Pkg → Bool
is_pkg name none = false
is_pkg name (some pkg) = pkg.name == name

abbrev pub is_pool_var : Option Object → Bool
is_pool_var none = false
is_pool_var (some (var id name pkg in_package_scope)) =
    name == "Conn" && is_pkg "db" pkg && in_package_scope
is_pool_var (some (func id name pkg receiver)) = false
is_pool_var (some (other_object id)) = false

unfoldable pub visit_conn : Node → List ℕ → List ℕ × Bool
visit_conn (ident i) reports = (if is_pool_var i.uses then reports ++ i.pos ∷ [] else reports, true)
visit_conn (selector x sel) reports = (reports, true)
visit_conn (call pos fun args) reports = (reports, true)
visit_conn (func_decl fn header body) reports = (reports, true)
visit_conn (func_decl_without_body fn header) reports = (reports, true)
visit_conn (other children) reports = (reports, true)

-- genFileName and allowedDBFiles
abbrev pub may_hold_pool : String → File → Bool
may_hold_pool package_name file =
    file.base_name == "conn.gen.go"
    || (package_name == "db" && (file.base_name == "db.go" || file.base_name == "tx.go"))

unfoldable pub conn_files : String → List File → List ℕ → List ℕ
unfolding visit_conn
conn_files package_name [] reports = reports
conn_files package_name (file ∷ files) reports =
    conn_files package_name files
      (if may_hold_pool package_name file then reports else inspect visit_conn file.node reports)

-- the positions that connconfine reports
unfoldable pub run_connconfine : Pass → List ℕ
unfolding conn_files
run_connconfine pass =
    if pass.package_name == "main" || pass.package_name == "webtest"
    then []
    else conn_files pass.package_name pass.files []

-- jobconfine

abbrev strip_pointer : GoType → GoType
strip_pointer (pointer t) = t
strip_pointer (named name pkg) = named name pkg
strip_pointer other_type = other_type

abbrev is_client : GoType → Bool
is_client (named name pkg) = name == "Client"
is_client (pointer t) = false
is_client other_type = false

abbrev has_client : Option GoType → Bool
has_client none = false
has_client (some t) = is_client (strip_pointer t)

abbrev is_river : Option Pkg → Bool
is_river none = false
is_river (some pkg) = pkg.path == "github.com/riverqueue/river"

abbrev pub is_plain_river_insert : Option Object → Bool
is_plain_river_insert none = false
is_plain_river_insert (some (var id name pkg in_package_scope)) = false
is_plain_river_insert (some (func id name pkg receiver)) =
    is_river pkg && starts_with name "Insert" && not (has_suffix name "Tx") && has_client receiver
is_plain_river_insert (some (other_object id)) = false

-- the position and the method's name of a report
abbrev pub report_call : ℕ → Node → List (ℕ × String) → List (ℕ × String)
report_call pos (selector x sel) reports =
    if is_plain_river_insert sel.uses then reports ++ (pos, sel.name) ∷ [] else reports
report_call pos (ident i) reports = reports
report_call pos (call at fun args) reports = reports
report_call pos (func_decl fn header body) reports = reports
report_call pos (func_decl_without_body fn header) reports = reports
report_call pos (other children) reports = reports

unfoldable pub visit_job : Node → List (ℕ × String) → List (ℕ × String) × Bool
visit_job (call pos fun args) reports = (report_call pos fun reports, true)
visit_job (ident i) reports = (reports, true)
visit_job (selector x sel) reports = (reports, true)
visit_job (func_decl fn header body) reports = (reports, true)
visit_job (func_decl_without_body fn header) reports = (reports, true)
visit_job (other children) reports = (reports, true)

unfoldable pub job_files : List File → List (ℕ × String) → List (ℕ × String)
unfolding visit_job
job_files [] reports = reports
job_files (file ∷ files) reports = job_files files (inspect visit_job file.node reports)

unfoldable pub run_jobconfine : Pass → List (ℕ × String)
unfolding job_files
run_jobconfine pass = if pass.package_name == "jobs" then [] else job_files pass.files []

-- txparam

abbrev pub is_queryable : Option GoType → Bool
is_queryable none = false
is_queryable (some (named name pkg)) = name == "Queryable" && is_pkg "db" pkg
is_queryable (some (pointer t)) = false
is_queryable (some other_type) = false

-- the closure of usedIn, whose state is `used`
unfoldable pub visit_use : Object → Node → Bool → Bool × Bool
visit_use obj (ident i) used =
    if is_object (object_id obj) i.uses then (true, false) else (used, not used)
visit_use obj (selector x sel) used = (used, not used)
visit_use obj (call pos fun args) used = (used, not used)
visit_use obj (func_decl fn header body) used = (used, not used)
visit_use obj (func_decl_without_body fn header) used = (used, not used)
visit_use obj (other children) used = (used, not used)

unfoldable pub used_in : Node → Object → Bool
unfolding visit_use
used_in body obj = inspect (visit_use obj) body false

-- the position, the parameter's name and the function's name of a report
abbrev pub Unused : Type 0
Unused = ℕ × (String × String)

abbrev pub defined : String → Node → Ident → Option Object → List Unused → List Unused
defined fn body name none reports = reports
defined fn body name (some obj) reports =
    if used_in body obj then reports else reports ++ (name.pos, (name.name, fn)) ∷ []

unfoldable pub check_names : String → Node → List Ident → List Unused → List Unused
check_names fn body [] reports = reports
check_names fn body (name ∷ names) reports =
    check_names fn body names
      (if name.name == "_" then reports else defined fn body name name.defs reports)

unfoldable pub check_params : String → Node → List Field → List Unused → List Unused
check_params fn body [] reports = reports
check_params fn body (field ∷ fields) reports =
    check_params fn body fields
      (if is_queryable field.type then check_names fn body field.names reports else reports)

unfoldable pub visit_func : Node → List Unused → List Unused × Bool
visit_func (func_decl fn header body) reports = (check_params fn.name body fn.params reports, true)
visit_func (ident i) reports = (reports, true)
visit_func (selector x sel) reports = (reports, true)
visit_func (call pos fun args) reports = (reports, true)
visit_func (func_decl_without_body fn header) reports = (reports, true)
visit_func (other children) reports = (reports, true)

unfoldable pub func_files : List File → List Unused → List Unused
unfolding visit_func
func_files [] reports = reports
func_files (file ∷ files) reports =
    func_files files (if file.is_generated then reports else inspect visit_func file.node reports)

unfoldable pub run_txparam : Pass → List Unused
unfolding func_files
run_txparam pass = func_files pass.files []
