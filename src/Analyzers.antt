-- ===== src/Analyzers.antt =====
-- Packages analyzers/connconfine, analyzers/jobconfine and analyzers/txparam. The syntax tree is what
-- the three read of go/ast, with what go/types resolves written at the identifiers; `inspect` is
-- ast.Inspect. An identifier has a position, by which a report names it.
pub mod Rules
pub mod Traversal
pub mod Confinement
pub mod Uses
pub mod Parameters
mod Examples
use go_bootstrap.Prelude.{
  ℕ, String, Bool, true, false, not, ◌&&◌, ◌||◌, Option, none, some, List, [], ◌∷◌, ◌++◌, ◌==◌, any,
  is_some, nat_eq, if◌then◌else◌,
}
use text.Mathlib.Text.{starts_with}
use go_bootstrap.Prelude.Text.{◌+++◌, has_suffix}

pub record Pkg : Type 0 where
  pub name : String
  pub path : String

-- what a type is, as far as the analyzers look at it
pub data GoType : Type 0 where
  named : (name : String) → (pkg : Option Pkg) → GoType
  pointer : GoType → GoType
  other_type : GoType

-- A types.Object: a variable (`in_package_scope` says whether it stands at the top level of its
-- package), a function with the type of its receiver, or another. The number stands for its identity.
pub data Object : Type 0 where
  var : (id : ℕ) (name : String) (pkg : Option Pkg) (in_package_scope : Bool) → Object
  func : (id : ℕ) (name : String) (pkg : Option Pkg) (receiver : Option GoType) → Object
  other_object : (id : ℕ) → Object

-- the identity of objects
abbrev pub object_id : Object → ℕ
object_id (var id name pkg in_package_scope) = id
object_id (func id name pkg receiver) = id
object_id (other_object id) = id

abbrev pub is_object : ℕ → Option Object → Bool
is_object id none = false
is_object id (some obj) = nat_eq (object_id obj) id

-- An identifier, with the objects that TypesInfo.Uses and TypesInfo.Defs hold for it.
pub record Ident : Type 0 where
  pub pos : ℕ
  pub name : String
  pub uses : Option Object
  pub defs : Option Object

-- a field of a parameter list: its names and its type, none where go/types knows none
pub record Field : Type 0 where
  pub names : List Ident
  pub type : Option GoType

pub record Signature : Type 0 where
  pub name : String
  pub params : List Field

infixr 67 ◌▸◌
mutual
  pub data Node : Type 0 where
    ident : Ident → Node
    selector : Node → Ident → Node
    call : (pos : ℕ) → Node → Nodes → Node
    -- a function declaration: what stands before its body, and its body
    func_decl : Signature → Nodes → Node → Node
    func_decl_without_body : Signature → Nodes → Node
    other : Nodes → Node

  pub data Nodes : Type 0 where
    end : Nodes
    ◌▸◌ : Node → Nodes → Nodes

module _ {S : Type 0} (visit : Node → S → S × Bool) where
  -- ast.Inspect: a node is visited, and then its children where the visit asks for them.
  unfoldable mutual
    pub inspect : Node → S → S
    inspect (ident i) s = (visit (ident i) s).0
    inspect (selector x sel) s =
        let (s', go) = visit (selector x sel) s in
        if go then (visit (ident sel) (inspect x s')).0 else s'
    inspect (call pos fun args) s =
        let (s', go) = visit (call pos fun args) s in
        if go then inspect_all args (inspect fun s') else s'
    inspect (func_decl fn header body) s =
        let (s', go) = visit (func_decl fn header body) s in
        if go then inspect body (inspect_all header s') else s'
    inspect (func_decl_without_body fn header) s =
        let (s', go) = visit (func_decl_without_body fn header) s in
        if go then inspect_all header s' else s'
    inspect (other children) s =
        let (s', go) = visit (other children) s in if go then inspect_all children s' else s'

    pub inspect_all : Nodes → S → S
    inspect_all end s = s
    inspect_all (n ▸ ns) s = inspect_all ns (inspect n s)
