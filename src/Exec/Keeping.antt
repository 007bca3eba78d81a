-- ===== src/Exec/Keeping.antt =====
-- Code that keeps a view of its state: the rules by which a chain is seen to keep it.
use go_bootstrap.Prelude.{◌≡◌, ◌∙◌, Bool, true, false, Option, none, some, if◌then◌else◌}
use go_bootstrap.Errors.{Result, ok, err}
use go_bootstrap.Exec.{Exec, continue}

module _ {S V : Type 0} (view : S → V) where
  -- The code leaves what the view shows as it was, whether it fails or not.
  abbrev pub Keeps : {A : Type 0} → Exec S A → Type 0
  Keeps m = (s : S) → view (m s).1 ≡ view s

  module _ {A B : Type 0} where
    pub continue-Shows :
        (r : Result A) (next : A → Exec S B) (s : S) {v : V}
        → view s ≡ v
        → ((a : A) → Keeps (next a))
        → view (continue r next s).1 ≡ v
    continue-Shows (ok a) next s h k = k a s ∙ h
    continue-Shows (err e) next s h k = h

    pub option-Shows :
        (o : Option A) (there : A → Result B × S) (absent : Result B × S) {v : V}
        → ((a : A) → view (there a).1 ≡ v)
        → view absent.1 ≡ v
        → view (elim o as (λ _. Result B × S) [ some a ↦ there a | none ↦ absent ]).1 ≡ v
    option-Shows none there absent h k = k
    option-Shows (some a) there absent h k = h a

  module _ {A : Type 0} where
    pub if-Shows :
        (b : Bool) (yes' no' : Exec S A) (s : S) {v : V}
        → view (yes' s).1 ≡ v
        → view (no' s).1 ≡ v
        → view ((if b then yes' else no') s).1 ≡ v
    if-Shows true yes' no' s h k = h
    if-Shows false yes' no' s h k = k

    pub test-Shows :
        (b : Bool) (yes' no' : Result A × S) {v : V}
        → view yes'.1 ≡ v
        → view no'.1 ≡ v
        → view (if b then yes' else no').1 ≡ v
    test-Shows true yes' no' h k = h
    test-Shows false yes' no' h k = k
