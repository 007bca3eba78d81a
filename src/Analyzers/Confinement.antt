-- ===== src/Analyzers/Confinement.antt =====
-- connconfine and jobconfine report what they mean to, wherever it stands in the tree.
use go_bootstrap.Prelude.{
  ℕ, String, ◌≡◌, refl, Bool, Option, none, some, ◌&&◌, any, arith, false, true, not, ◌||◌, List,
  [], ◌∷◌, ◌++◌, ◌==◌, keep, concat_map, append-nil, Bool-cases, inl, inr, if◌then◌else◌, ◌∙◌, sym,
}
use go_bootstrap.Analyzers.{
  Object, var, func, other_object, Node, ident, selector, call, func_decl, func_decl_without_body,
  other, inspect,
}
use go_bootstrap.Analyzers.Rules.{
  File, Pass, is_pool_var, visit_conn, may_hold_pool, conn_files, run_connconfine,
  is_plain_river_insert, visit_job, job_files, run_jobconfine,
}
use go_bootstrap.Analyzers.Traversal.{nodes, inspect-before}

-- what an identifier that denotes db.Conn stands for: a variable of that name in the scope of a package db
abbrev denotes_pool : Option Object → Bool
denotes_pool (some (var id name (some pkg) true)) = name == "Conn" && pkg.name == "db"
denotes_pool other_use = false

-- a use of the pool: an identifier that denotes db.Conn
abbrev pub pool_uses : Node → List ℕ
pool_uses (ident i) = if denotes_pool i.uses then i.pos ∷ [] else []
pool_uses other_node = []

denotes_pool_lem : (use' : Option Object) → is_pool_var use' ≡ denotes_pool use'
denotes_pool_lem none = refl
denotes_pool_lem (some (var id name none in_scope)) = ground arith
denotes_pool_lem (some (var id name (some pkg) true)) = ground arith
denotes_pool_lem (some (var id name (some pkg) false)) = ground arith
denotes_pool_lem (some (func id name pkg receiver)) = refl
denotes_pool_lem (some (other_object id)) = refl

-- the files of a package in which db.Conn may stand
abbrev pub exempt_files : String → List String
exempt_files package_name =
    if package_name == "db" then "conn.gen.go" ∷ "db.go" ∷ "tx.go" ∷ [] else "conn.gen.go" ∷ []

abbrev pub is_exempt : String → File → Bool
is_exempt package_name file = any (λ name. file.base_name == name) (exempt_files package_name)

is_exempt_lem :
    (package_name : String) (file : File)
    → may_hold_pool package_name file ≡ is_exempt package_name file
is_exempt_lem package_name file = ground arith

visit_conn-adds :
    (n : Node) (reports : List ℕ) → visit_conn n reports ≡ (reports ++ pool_uses n, true)
unfolding visit_conn
visit_conn-adds (ident i) reports = elim (Bool-cases (is_pool_var i.uses)) [
  | inl pool ↦ rw (pool, sym (denotes_pool_lem i.uses) ∙ pool) refl
  | inr clean ↦ rw (clean, sym (denotes_pool_lem i.uses) ∙ clean, append-nil reports) refl
]
visit_conn-adds (selector x sel) reports = rw (append-nil reports) refl
visit_conn-adds (call pos fun args) reports = rw (append-nil reports) refl
visit_conn-adds (func_decl fn header body) reports = rw (append-nil reports) refl
visit_conn-adds (func_decl_without_body fn header) reports = rw (append-nil reports) refl
visit_conn-adds (other children) reports = rw (append-nil reports) refl

-- what a list of files holds, of what is found at a node
abbrev pub held {ℓ} : {R : Type ℓ} → (Node → List R) → List File → List R
held found = concat_map (λ file. concat_map found (nodes file.node))

conn_files_lem :
    (package_name : String) (files : List File) (reports : List ℕ)
    → conn_files package_name files reports
      ≡ reports ++ held pool_uses (keep (λ file. not (is_exempt package_name file)) files)
unfolding conn_files
conn_files_lem package_name [] reports = sym (append-nil reports)
conn_files_lem package_name (file ∷ files) reports =
    elim (Bool-cases (may_hold_pool package_name file)) [
      | inl allowed ↦
          rw (allowed, sym (is_exempt_lem package_name file) ∙ allowed)
            (conn_files_lem package_name files reports)
      | inr confined ↦
          rw (confined, sym (is_exempt_lem package_name file) ∙ confined)
            (conn_files_lem package_name files (inspect visit_conn file.node reports)
              ∙ inspect-before visit_conn pool_uses visit_conn-adds file.node reports
                  (held pool_uses (keep (λ file. not (is_exempt package_name file)) files)))
    ]

-- connconfine reports the identifiers that denote a package variable Conn of a package named db, each once
-- and in the order of the files and of their trees, wherever they stand in a file: outside the packages
-- main and webtest, in every file but conn.gen.go, and but db.go and tx.go of a package db; and it reports
-- nothing else.
pub run_connconfine_lem :
    (pass : Pass)
    → run_connconfine pass ≡ (
        if pass.package_name == "main" || pass.package_name == "webtest"
        then []
        else held pool_uses (keep (λ file. not (is_exempt pass.package_name file)) pass.files))
unfolding run_connconfine
run_connconfine_lem pass = rw (conn_files_lem pass.package_name pass.files []) refl

-- a call of a plain insert: its position and the method's name
abbrev pub plain_inserts : Node → List (ℕ × String)
plain_inserts (call pos (selector x sel) args) =
    if is_plain_river_insert sel.uses then (pos, sel.name) ∷ [] else []
plain_inserts (call pos (ident i) args) = []
plain_inserts (call pos (call at fun inner) args) = []
plain_inserts (call pos (func_decl fn header body) args) = []
plain_inserts (call pos (func_decl_without_body fn header) args) = []
plain_inserts (call pos (other children) args) = []
plain_inserts (ident i) = []
plain_inserts (selector x sel) = []
plain_inserts (func_decl fn header body) = []
plain_inserts (func_decl_without_body fn header) = []
plain_inserts (other children) = []

visit_job-adds :
    (n : Node) (reports : List (ℕ × String))
    → visit_job n reports ≡ (reports ++ plain_inserts n, true)
unfolding visit_job
visit_job-adds (call pos (selector x sel) args) reports =
    elim (Bool-cases (is_plain_river_insert sel.uses)) [
      | inl plain ↦ rw plain refl
      | inr clean ↦ rw (clean, append-nil reports) refl
    ]
visit_job-adds (call pos (ident i) args) reports = rw (append-nil reports) refl
visit_job-adds (call pos (call at fun inner) args) reports = rw (append-nil reports) refl
visit_job-adds (call pos (func_decl fn header body) args) reports = rw (append-nil reports) refl
visit_job-adds (call pos (func_decl_without_body fn header) args) reports =
    rw (append-nil reports) refl
visit_job-adds (call pos (other children) args) reports = rw (append-nil reports) refl
visit_job-adds (ident i) reports = rw (append-nil reports) refl
visit_job-adds (selector x sel) reports = rw (append-nil reports) refl
visit_job-adds (func_decl fn header body) reports = rw (append-nil reports) refl
visit_job-adds (func_decl_without_body fn header) reports = rw (append-nil reports) refl
visit_job-adds (other children) reports = rw (append-nil reports) refl

job_files_lem :
    (files : List File) (reports : List (ℕ × String))
    → job_files files reports ≡ reports ++ held plain_inserts files
unfolding job_files
job_files_lem [] reports = sym (append-nil reports)
job_files_lem (file ∷ files) reports =
    job_files_lem files (inspect visit_job file.node reports)
    ∙ inspect-before visit_job plain_inserts visit_job-adds file.node reports
        (held plain_inserts files)

-- jobconfine reports, outside package jobs, exactly the calls whose function is a selector of a method of
-- River's Client that begins with Insert and does not end with Tx, each once, wherever it stands.
pub run_jobconfine_lem :
    (pass : Pass)
    → run_jobconfine pass
      ≡ (if pass.package_name == "jobs" then [] else held plain_inserts pass.files)
unfolding run_jobconfine
run_jobconfine_lem pass = rw (job_files_lem pass.files []) refl
