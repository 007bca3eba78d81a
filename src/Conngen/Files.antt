-- ===== src/Conngen/Files.antt =====
-- main, generate and removeStale of cmd/conngen/main.go, over the generated file of each package. What the
-- imports tool makes of a text, what the parser makes of a generated file, and whether a file can be
-- written or removed are parameters.
pub mod Again
use go_bootstrap.Prelude.{
  ℕ, String, Bool, true, false, Option, none, some, List, [], ◌∷◌, ◌++◌, leb, if◌then◌else◌,
}
use go_bootstrap.Prelude.Text.{◌+++◌}
use go_bootstrap.Errors.{Error, wrap, Result, ok, err}
use go_bootstrap.Conngen.{Expr, File, Package, Import, Decl, gen_file_name}
use go_bootstrap.Conngen.Variants.{generate}

-- A package as it stands on disk, but for its generated file: the files in front of that one and behind
-- it, in the order of their names.
pub record Source : Type 0 where
  pub name : String
  pub dir : String
  pub before : List File
  pub after : List File

pub record Tools : Type 0 where
  pub print_expr : Expr → Result String
  pub is_exported : String → Bool
  -- imports.Process, at a path
  pub process : String → String → Result String
  -- what a generated file reads as
  pub imports : String → List Import
  pub decls : String → List Decl
  -- os.WriteFile at a path: its error, with what it leaves there
  pub write_fails : String → Option (Error × Option String)
  -- os.Remove of a file that is there
  pub remove_fails : String → Option Error

-- the generated file of a package, if it is there
abbrev pub Disk : Type 0
Disk = Option String

module _ (tools : Tools) where
  abbrev pub generated_file : String → File
  generated_file text = record {
    base_name = gen_file_name;
    imports = tools.imports text;
    decls = tools.decls text;
  }

  -- pkg.Syntax and pkg.CompiledGoFiles
  abbrev pub compiled : Source → Disk → List File
  compiled src none = src.before ++ src.after
  compiled src (some text) = src.before ++ generated_file text ∷ src.after

  abbrev pub package_of : Source → Disk → Package
  package_of src disk = record { name = src.name; files = compiled src disk }

  abbrev generated_path : Source → String
  generated_path src = src.dir +++ ("/" +++ gen_file_name)

  -- a file that is not there is no error
  remove_stale : Source → Disk → Result (Unit {0}) × Disk
  remove_stale src none = (ok tt, none)
  remove_stale src (some text) = elim (tools.remove_fails (generated_path src)) [
    | none ↦ (ok tt, none)
    | some e ↦ (err (wrap ("removing stale " +++ generated_path src) e), some text)
  ]

  write_generated : Source → String → Result (Unit {0}) × Disk
  write_generated src text = elim (tools.write_fails (generated_path src)) [
    | none ↦ (ok tt, some text)
    | some failure ↦ (err (wrap ("writing " +++ generated_path src) failure.0), failure.1)
  ]

  resolved : Source → Result String → Disk → Result (Unit {0}) × Disk
  unfolding write_generated
  resolved src (err e) disk =
      (err (wrap ("resolving imports (" +++ (generated_path src +++ ")")) e), disk)
  resolved src (ok text) disk = write_generated src text

  finish_package : Source → Result (Option String) → Disk → Result (Unit {0}) × Disk
  unfolding remove_stale resolved
  finish_package src (err e) disk = (err e, disk)
  finish_package src (ok none) disk = remove_stale src disk
  finish_package src (ok (some text)) disk =
      resolved src (tools.process (generated_path src) text) disk

  unfoldable pub generate_package : Source → Disk → Result (Unit {0}) × Disk
  unfolding finish_package
  generate_package src disk =
      finish_package src (generate tools.print_expr tools.is_exported (package_of src disk)) disk

  abbrev is_nil : List File → Bool
  is_nil [] = true
  is_nil (file ∷ files) = false

  -- one round of the loop of main: a package without compiled files is skipped
  step_package : Source → Disk → Result (Unit {0}) × Disk
  unfolding generate_package
  step_package src disk =
      if is_nil (compiled src disk) then (ok tt, disk) else generate_package src disk

  abbrev Disks : Type 0
  Disks = List (Source × Disk)

  abbrev behind : Source → Result (Unit {0}) × Disk → Disks → ℕ × Disks → ℕ × Disks
  behind src (err e, disk) rest looped = (1, (src, disk) ∷ rest)
  behind src (ok u, disk) rest looped = (looped.0, (src, disk) ∷ looped.1)

  -- The loop of main: the exit status, and what is on disk behind it.
  unfoldable pub generate_all : Disks → ℕ × Disks
  unfolding step_package
  generate_all [] = (0, [])
  generate_all ((src, disk) ∷ rest) =
      let looped = generate_all rest in behind src (step_package src disk) rest looped

  -- main, for its arguments, the answer of packages.Load, and the number of errors that PrintErrors counts
  unfoldable pub conngen_main : List String → Result (Unit {0}) → ℕ → Disks → ℕ × Disks
  conngen_main [] loaded errors disks = (1, disks)
  conngen_main (pattern' ∷ patterns) (err e) errors disks = (1, disks)
  conngen_main (pattern' ∷ patterns) (ok u) errors disks =
      if leb 1 errors then (1, disks) else generate_all disks
