-- ===== src/Exec.antt =====
-- Code that changes a state and may fail. What was written before a failure stays written, so the
-- state comes back beside the error too.
pub mod Keeping
use go_bootstrap.Errors.{Error, wrap, Result, ok, err, map_err}
use go_bootstrap.Prelude.{String, ◌≡◌, refl}

abbrev pub Exec {ℓ} : Type ℓ → Type ℓ → Type ℓ
Exec S A = S → Result A × S

module _ {ℓ} {S A : Type ℓ} where
  abbrev pub pure : A → Exec S A
  pure a s = (ok a, s)

  -- return err
  abbrev pub fail : Error → Exec S A
  fail e s = (err e, s)

  abbrev pub lift : Result A → Exec S A
  lift r s = (r, s)

  -- if err != nil { return fmt.Errorf("text: %w", err) }
  abbrev pub wrapping : String → Exec S A → Exec S A
  wrapping text m s = (map_err (wrap text) (m s).0, (m s).1)

  -- the call with its error as a value, for code that looks at the error and goes on
  abbrev pub attempt : Exec S A → Exec S (Result A)
  attempt m s = (ok (m s).0, (m s).1)

module _ {ℓ} {S A B : Type ℓ} where
  abbrev pub continue : Result A → (A → Exec S B) → Exec S B
  continue (ok a) f s = f a s
  continue (err e) f s = (err e, s)

  infixl 5 ◌>>=◌ ◌>>◌
  abbrev pub ◌>>=◌ : Exec S A → (A → Exec S B) → Exec S B
  ◌>>=◌ m f s = continue (m s).0 f (m s).1

  abbrev pub ◌>>◌ : Exec S A → Exec S B → Exec S B
  ◌>>◌ m n s = continue (m s).0 (λ _. n) (m s).1

module _ {ℓ} {S A B : Type ℓ} where
  -- Inversion of a chain that succeeds: its head succeeds, and the rest runs from the head's store.
  pub continue-eq-ok :
      (r : Result A) (f : A → Exec S B) (s : S) {b : B}
      → (continue r f s).0 ≡ ok b
      → (a : A) × (r ≡ ok a) × ((f a s).0 ≡ ok b) × (continue r f s ≡ f a s)
  continue-eq-ok (ok a) f s h = (a, refl, h, refl)
  continue-eq-ok (err e) f s h = cc

pub map_err-eq-ok {ℓ} :
    {A : Type ℓ} (f : Error → Error) (r : Result A) {a : A} → map_err f r ≡ ok a → r ≡ ok a
map_err-eq-ok f (ok b) h = h
map_err-eq-ok f (err e) h = cc
