-- ===== src/Conngen/Variants/Reading.antt =====
-- What a package generates depends on its hand-written files.
use go_bootstrap.Prelude.{
  ℕ, String, ◌≡◌, arith, refl, sym, ap, ◌∙◌, Bool, not, ◌&&◌, List, [], ◌∷◌, any, keep, ◌==◌,
  if◌then◌else◌,
}
use go_bootstrap.Prelude.Text.{trim_suffix}
use go_bootstrap.Errors.{Result}
use go_bootstrap.Conngen.{
  Expr, FuncDecl, File, Package, gen_file_name, declares_top_level, decl_declares, conn_expr,
}
use go_bootstrap.Conngen.Variants.{
  render, render_with, with_rendered, with_variants, candidates, render_all, generate,
}

abbrev pub is_written : File → Bool
is_written file = not (file.base_name == gen_file_name)

-- the files that are not generated
abbrev pub by_hand : List File → List File
by_hand files = keep is_written files

any-by_hand :
    (test : File → Bool) (files : List File)
    → any (λ file. is_written file && test file) (by_hand files)
      ≡ any (λ file. is_written file && test file) files
any-by_hand test [] = refl
any-by_hand test (file ∷ files) = ground (arith, any-by_hand test files)

-- Two packages of one name whose hand-written files are the same.
pub record Alike (a b : Package) : Type 0 where
  pub name-eq : a.name ≡ b.name
  pub files-eq : by_hand a.files ≡ by_hand b.files

module _ {a b : Package} (alike : Alike a b) where
  declares-same : (name : String) → declares_top_level a name ≡ declares_top_level b name
  unfolding declares_top_level
  declares-same name =
      sym (any-by_hand (λ file. any (decl_declares name) file.decls) a.files)
      ∙ (ap (any (λ file. is_written file && any (decl_declares name) file.decls)) alike.files-eq
          ∙ any-by_hand (λ file. any (decl_declares name) file.decls) b.files)

  conn-same : conn_expr a ≡ conn_expr b
  unfolding conn_expr
  conn-same = ap (λ declared. if declared then "Conn" else "db.Conn") (declares-same "Conn")

  module _ (print_expr : Expr → Result String) (is_exported : String → Bool) where
    render-same :
        (fn : FuncDecl) (i : ℕ)
        → render print_expr is_exported a fn i ≡ render print_expr is_exported b fn i
    unfolding render
    render-same fn i =
        ap
          (λ declared.
            render_with print_expr is_exported (trim_suffix fn.name "Tx") declared (conn_expr a) fn
              i)
          (declares-same (trim_suffix fn.name "Tx"))
        ∙ ap
            (λ conn.
              render_with print_expr is_exported (trim_suffix fn.name "Tx")
                (declares_top_level b (trim_suffix fn.name "Tx")) conn fn i)
            conn-same

    render_all-same :
        (l : List (FuncDecl × ℕ))
        → render_all print_expr is_exported a l ≡ render_all print_expr is_exported b l
    unfolding render_all
    render_all-same [] = refl
    render_all-same ((fn, i) ∷ l) =
        ap
          (λ text.
            with_rendered print_expr is_exported fn text (render_all print_expr is_exported a l))
          (render-same fn i)
        ∙ ap (with_rendered print_expr is_exported fn (render print_expr is_exported b fn i))
            (render_all-same l)

module _ (print_expr : Expr → Result String) (is_exported : String → Bool) where
  candidates-by_hand :
      (name : String) (files : List File)
      → candidates print_expr is_exported name (by_hand files)
        ≡ candidates print_expr is_exported name files
  unfolding candidates
  candidates-by_hand name [] = refl
  candidates-by_hand name (file ∷ files) = ground (arith, candidates-by_hand name files)

  -- Packages that are alike generate the same file.
  pub generate-Alike :
      (a b : Package)
      → Alike a b
      → generate print_expr is_exported a ≡ generate print_expr is_exported b
  unfolding generate
  generate-Alike a b alike =
      let same : candidates print_expr is_exported a.name a.files
          ≡ candidates print_expr is_exported b.name b.files =
        sym (candidates-by_hand a.name a.files)
        ∙ (ap (candidates print_expr is_exported a.name) alike.files-eq
            ∙ (candidates-by_hand a.name b.files
                ∙ ap (λ name. candidates print_expr is_exported name b.files) alike.name-eq)) in
      ap (λ l. with_variants print_expr is_exported a.name (render_all print_expr is_exported a l))
        same
      ∙ (ap (with_variants print_expr is_exported a.name) (
            render_all-same alike print_expr is_exported
              (candidates print_expr is_exported b.name b.files))
          ∙ ap
              (λ name. with_variants print_expr is_exported name (
                render_all print_expr is_exported b
                  (candidates print_expr is_exported b.name b.files)))
              alike.name-eq)
