-- ===== src/Conngen/Examples.antt =====
-- The generator at a function of package auth.
use go_bootstrap.Prelude.{String, ◌≡◌, refl, true, false, none, some, List, [], ◌∷◌, ◌++◌}
use go_bootstrap.Errors.{Result, ok}
use go_bootstrap.Conngen.{
  Expr, ident, selector, FuncDecl, File, Package, func_decl, is_queryable, import_path,
  queryable_from, queryable_field, print_fields, call_args, declares_top_level, conn_expr,
}
use go_bootstrap.Prelude.Text.{has_suffix, split, trim, trim_suffix, join}
use go_bootstrap.Conngen.Variants.{generate, render}
use go_bootstrap.Conngen.Files.{Source, Tools, Disk, generate_all, conngen_main}
use go_bootstrap.Conngen.Files.Again.{conngen_main-again}
use go_bootstrap.Conngen.Forwarding.{IsFound, parameters, arguments, queryable_field-forwards}

abbrev print_demo : Expr → Result String
print_demo (ident name) = ok name
print_demo other = ok "T"

-- func ByEmailTx(ctx T, tx db.Queryable, email string) (User, error)
abbrev by_email_tx : FuncDecl
by_email_tx = record {
  name = "ByEmailTx";
  has_receiver = false;
  type_params = [];
  params =
      record { names = "ctx" ∷ []; of_type = selector "context" "Context" }
      ∷ record { names = "tx" ∷ []; of_type = selector "db" "Queryable" }
      ∷ record { names = "email" ∷ []; of_type = ident "string" }
      ∷ [];
  results =
      record { names = []; of_type = ident "User" }
      ∷ record { names = []; of_type = ident "error" }
      ∷ [];
}

abbrev users_go : File
users_go = record {
  base_name = "users.go";
  imports = record { name = none; path = "\"github.com/mbriggs/go-bootstrap/db\"" } ∷ [];
  decls = func_decl by_email_tx ∷ [];
}

abbrev auth_package : Package
auth_package = record { name = "auth"; files = users_go ∷ [] }

generated :
    generate print_demo (λ name. true) auth_package
    ≡ ok (
        some
          "// Code generated by conngen. DO NOT EDIT.\n\n// Direct db.Conn variants of this package's *Tx functions.\n\npackage auth\n\n// ByEmail is the direct db.Conn variant of ByEmailTx.\nfunc ByEmail(ctx T, email string) (User, error) {\n\treturn ByEmailTx(ctx, db.Conn, email)\n}\n\n")
unfolding generate has_suffix queryable_field queryable_from is_queryable import_path split trim
    render declares_top_level trim_suffix print_fields join call_args conn_expr
generated = refl

second : queryable_field users_go "auth" by_email_tx ≡ some 1
unfolding queryable_field queryable_from is_queryable import_path
    go_bootstrap.Prelude.Text.has_suffix go_bootstrap.Prelude.Text.split
    go_bootstrap.Prelude.Text.trim
second = refl

queryable_field-forwards_example :
    (split : IsFound (is_queryable users_go "auth") 0 1 by_email_tx.params) × (print_fields
        print_demo
        (λ name. true)
        0
        by_email_tx.params
        1
      ≡ parameters print_demo (split.before ++ split.after))
    × (call_args 0 by_email_tx.params 1 "db.Conn"
        ≡ arguments split.before ++ "db.Conn" ∷ arguments split.after)
queryable_field-forwards_example =
    queryable_field-forwards print_demo (λ name. true) users_go "auth" "db.Conn" by_email_tx 1
      second

abbrev demo_tools : Tools
demo_tools = record {
  print_expr = print_demo;
  is_exported = λ name. true;
  process = λ path text. ok text;
  imports = λ text. [];
  decls = λ text. [];
  write_fails = λ path. none;
  remove_fails = λ path. none;
}

abbrev auth_source : Source
auth_source = record { name = "auth"; dir = "auth"; before = []; after = users_go ∷ [] }

-- a file without a function
abbrev plain_go : File
plain_go = record { base_name = "web.go"; imports = []; decls = [] }

abbrev web_source : Source
web_source = record { name = "web"; dir = "web"; before = []; after = plain_go ∷ [] }

abbrev auth_variants : String
auth_variants =
    "// Code generated by conngen. DO NOT EDIT.\n\n// Direct db.Conn variants of this package's *Tx functions.\n\npackage auth\n\n// ByEmail is the direct db.Conn variant of ByEmailTx.\nfunc ByEmail(ctx T, email string) (User, error) {\n\treturn ByEmailTx(ctx, db.Conn, email)\n}\n\n"

-- auth had no generated file yet, and the one of web is stale
abbrev found_packages : List (Source × Disk)
found_packages = (auth_source, none) ∷ (web_source, some "package web") ∷ []

abbrev left_packages : List (Source × Disk)
left_packages = (auth_source, some auth_variants) ∷ (web_source, none) ∷ []

first_pass : conngen_main demo_tools ("./..." ∷ []) (ok tt) 0 found_packages ≡ (0, left_packages)
unfolding conngen_main generate_all generate has_suffix queryable_field queryable_from is_queryable
    import_path split trim render declares_top_level trim_suffix print_fields join call_args
    conn_expr
first_pass = refl

conngen_main-again_example :
    conngen_main demo_tools ("./..." ∷ []) (ok tt) 0 left_packages ≡ (0, left_packages)
conngen_main-again_example =
    conngen_main-again demo_tools ("./..." ∷ []) (ok tt) 0 found_packages left_packages first_pass
