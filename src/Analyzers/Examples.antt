-- ===== src/Analyzers/Examples.antt =====
-- The functions of analyzers/txparam's test data, and references to the pool and to River's inserts.
use go_bootstrap.Prelude.{
  ℕ, String, ◌≡◌, refl, true, false, not, ◌||◌, none, some, [], ◌∷◌, ◌==◌, keep, if◌then◌else◌,
}
use go_bootstrap.Prelude.Text.{has_suffix}
use go_bootstrap.Analyzers.{
  Pkg, named, pointer, Object, var, func, Ident, Field, Node, ident, selector, call, func_decl,
  other, end, ◌▸◌, inspect,
}
use go_bootstrap.Analyzers.Rules.{
  File, Pass, run_connconfine, run_jobconfine, run_txparam, used_in, check_params, check_names,
}
use go_bootstrap.Analyzers.Confinement.{held, pool_uses, is_exempt, run_connconfine_lem}
use go_bootstrap.Analyzers.Parameters.{unused_params, run_txparam_lem}

abbrev db : Pkg
db = record { name = "db"; path = "github.com/mbriggs/go-bootstrap/db" }

abbrev river : Pkg
river = record { name = "river"; path = "github.com/riverqueue/river" }

abbrev tx : Object
tx = var 1 "tx" none false

abbrev pool : Object
pool = var 2 "Conn" (some db) true

abbrev insert_method : Object
insert_method = func 3 "Insert" (some river) (some (pointer (named "Client" (some river))))

abbrev query_method : Object
query_method = func 4 "Query" (some db) none

abbrev uses : ℕ → String → Object → Ident
uses pos name obj = record { pos = pos; name = name; uses = some obj; defs = none }

abbrev param : ℕ → String → Field
param pos name = record {
  names = record { pos = pos; name = name; uses = none; defs = some tx } ∷ [];
  type = some (named "Queryable" (some db));
}

-- func UsedTx(tx db.Queryable) { tx.Query() }, and the same with a body that does not use tx
abbrev used_tx : Node
used_tx =
    func_decl (record { name = "UsedTx"; params = param 10 "tx" ∷ [] }) end
      (other
        (call 11 (selector (ident (uses 11 "tx" tx)) (uses 12 "Query" query_method)) end ▸ end))

abbrev unused_tx : Node
unused_tx =
    func_decl (record { name = "UnusedTx"; params = param 20 "tx" ∷ [] }) end
      (other (ident (uses 21 "Conn" pool) ▸ end))

abbrev blank_tx : Node
blank_tx = func_decl (record { name = "BlankTx"; params = param 30 "_" ∷ [] }) end (other end)

abbrev a_go : File
a_go = record {
  base_name = "a.go";
  is_generated = false;
  node = other (
      used_tx
      ▸ unused_tx
      ▸ blank_tx
      ▸ call 40 (selector (other end) (uses 41 "Insert" insert_method)) end
      ▸ end);
}

abbrev conn_gen_go : File
conn_gen_go = record a_go { base_name = "conn.gen.go"; is_generated = true }

abbrev pass : Pass
pass = record { package_name = "a"; files = a_go ∷ conn_gen_go ∷ [] }

txparam_run : run_txparam pass ≡ (20, ("tx", "UnusedTx")) ∷ []
unfolding run_txparam inspect check_params check_names used_in
txparam_run = refl

connconfine_run : run_connconfine pass ≡ 21 ∷ []
unfolding run_connconfine inspect
connconfine_run = refl

jobconfine_run : run_jobconfine pass ≡ (40, "Insert") ∷ (40, "Insert") ∷ []
unfolding run_jobconfine inspect has_suffix
jobconfine_run = refl

run_connconfine_example : run_connconfine pass ≡ (
    if "a" == "main" || "a" == "webtest"
    then []
    else held pool_uses (keep (λ file. not (is_exempt "a" file)) (a_go ∷ conn_gen_go ∷ [])))
run_connconfine_example = run_connconfine_lem pass

run_txparam_example :
    run_txparam pass
    ≡ held unused_params (keep (λ file. not file.is_generated) (a_go ∷ conn_gen_go ∷ []))
run_txparam_example = run_txparam_lem pass
