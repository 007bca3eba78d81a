-- ===== src/Conngen/Files/Again.antt =====
-- The generator does not read what it wrote: a second run changes nothing.
use go_bootstrap.Prelude.{
  ℕ, String, ◌≡◌, refl, sym, ap, ◌∙◌, subst, leb, List, Option, none, some, [], ◌∷◌, ◌++◌,
  keep-append, Bool-cases, Option-cases, inl, inr,
}
use go_bootstrap.Errors.{Result, ok, err}
use go_bootstrap.Conngen.Variants.Reading.{is_written, by_hand, Alike, generate-Alike}
use go_bootstrap.Conngen.Files.{
  Source, Tools, Disk, compiled, package_of, generated_file, remove_stale, write_generated,
  resolved, finish_package, generated_path, generate_package, step_package, is_nil, generate_all,
  behind, Disks, conngen_main,
}

module _ (tools : Tools) where
  by_hand-compiled :
      (src : Source) (disk : Disk)
      → by_hand (compiled tools src disk) ≡ by_hand (src.before ++ src.after)
  by_hand-compiled src none = refl
  by_hand-compiled src (some text) =
      keep-append is_written src.before (generated_file tools text ∷ src.after)
      ∙ sym (keep-append is_written src.before src.after)

  package_of-Alike :
      (src : Source) (d e : Disk) → Alike (package_of tools src d) (package_of tools src e)
  package_of-Alike src d e = record {
    name-eq = refl;
    files-eq = by_hand-compiled src d ∙ sym (by_hand-compiled src e);
  }

  -- what the end of a package gives once, it gives again
  resolved-again :
      (src : Source) (text : Result String) (disk disk' : Disk)
      → resolved tools src text disk ≡ (ok tt, disk')
      → resolved tools src text disk' ≡ (ok tt, disk')
  unfolding resolved write_generated
  resolved-again src (err e) disk disk' h = absurd cc
  resolved-again src (ok text) disk disk' h = h

  stale-gone :
      (src : Source) (disk disk' : Disk)
      → remove_stale tools src disk ≡ (ok tt, disk')
      → disk' ≡ none
  unfolding remove_stale
  stale-gone src none disk' h = ap (λ r. r.1) (sym h)
  stale-gone src (some text) disk' h =
      elim (Option-cases (tools.remove_fails (generated_path tools src))) [
        | inl removed ↦ ap (λ r. r.1) (sym (rw (remove_stale, removed) at h))
        | inr (e, kept) ↦ absurd (cc (rw (remove_stale, kept) at h))
      ]

  stale-again :
      (src : Source) (disk disk' : Disk)
      → remove_stale tools src disk ≡ (ok tt, disk')
      → remove_stale tools src disk' ≡ (ok tt, disk')
  unfolding remove_stale
  stale-again src disk disk' h =
      subst (λ d. remove_stale tools src d ≡ (ok tt, d)) (sym (stale-gone src disk disk' h)) refl

  finish-again :
      (src : Source) (made : Result (Option String)) (disk disk' : Disk)
      → finish_package tools src made disk ≡ (ok tt, disk')
      → finish_package tools src made disk' ≡ (ok tt, disk')
  unfolding finish_package
  finish-again src (err e) disk disk' h = absurd cc
  finish-again src (ok none) disk disk' h = stale-again src disk disk' h
  finish-again src (ok (some text)) disk disk' h = resolved-again src _ disk disk' h

  generate_package-again :
      (src : Source) (disk disk' : Disk)
      → generate_package tools src disk ≡ (ok tt, disk')
      → generate_package tools src disk' ≡ (ok tt, disk')
  unfolding generate_package
  generate_package-again src disk disk' h =
      ap (λ made. finish_package tools src made disk')
        (generate-Alike tools.print_expr tools.is_exported _ _ (package_of-Alike src disk' disk))
      ∙ finish-again src _ disk disk' h

  step_package-again :
      (src : Source) (disk disk' : Disk)
      → step_package tools src disk ≡ (ok tt, disk')
      → step_package tools src disk' ≡ (ok tt, disk')
  unfolding step_package
  step_package-again src disk disk' h = elim (Bool-cases (is_nil tools (compiled tools src disk))) [
    | inl empty ↦
        subst (λ d. step_package tools src d ≡ (ok tt, d))
          (ap (λ r. r.1) (rw (step_package, empty) at h)) (rw (step_package, empty) refl)
    | inr there ↦ elim (Bool-cases (is_nil tools (compiled tools src disk'))) [
      | inl empty ↦ rw (step_package, empty) refl
      | inr again ↦
          rw (step_package, again)
            (generate_package-again src disk disk' (rw (step_package, there) at h))
    ]
  ]

  behind-done :
      (src : Source) (r : Result (Unit {0}) × Disk) (rest : Disks tools) (looped : ℕ × Disks tools)
      (done : Disks tools)
      → behind tools src r rest looped ≡ (0, done)
      → (disk' : Disk) × (done' : Disks tools) × (r ≡ (ok tt, disk'))
        × (looped ≡ (0, done'))
        × (done ≡ (src, disk') ∷ done')
  behind-done src (err e, disk) rest looped done h = absurd cc
  behind-done src (ok u, disk) rest (status, done') done h =
      (disk, done', refl, cc, ap (λ r. r.1) (sym h))

  -- The loop again changes nothing of what a loop without an error has left.
  generate_all-again :
      (packages done : Disks tools)
      → generate_all tools packages ≡ (0, done)
      → generate_all tools done ≡ (0, done)
  unfolding generate_all
  generate_all-again [] done h = subst (λ l. generate_all tools l ≡ (0, l)) (ap (λ r. r.1) h) refl
  generate_all-again ((src, disk) ∷ rest) done h =
      let (disk', done', stepped, looped, same) =
        behind-done src (step_package tools src disk) rest (generate_all tools rest) done h in
      subst (λ l. generate_all tools l ≡ (0, l)) (sym same)
        (rw (step_package-again src disk disk' stepped, generate_all-again rest done' looped) refl)

  -- Generating again changes nothing: where a run of conngen, whatever generated files it found, ends with
  -- status 0, and packages.Load then loads the same packages with the generated files that the run left,
  -- without an error, a second run with the same arguments ends with status 0 and leaves every file as it
  -- is. What it wrote is not among what it reads, and a file that is stale is gone.
  pub conngen_main-again :
      (patterns : List String) (loaded : Result (Unit {0})) (errors : ℕ)
      (packages done : Disks tools)
      → conngen_main tools patterns loaded errors packages ≡ (0, done)
      → conngen_main tools patterns (ok tt) 0 done ≡ (0, done)
  unfolding conngen_main
  conngen_main-again [] loaded errors packages done h = absurd cc
  conngen_main-again (pattern' ∷ patterns) (err e) errors packages done h = absurd cc
  conngen_main-again (pattern' ∷ patterns) (ok u) errors packages done h =
      elim (Bool-cases (leb 1 errors)) [
        | inl broken ↦ absurd (cc (rw (conngen_main, broken) at h))
        | inr clean ↦ generate_all-again packages done (rw (conngen_main, clean) at h)
      ]
