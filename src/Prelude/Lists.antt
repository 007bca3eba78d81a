-- ===== src/Prelude/Lists.antt =====
-- Lists measured by native numbers and filtered by Boolean tests.
use Prim.Native.Nat.{ℕ, suc, ◌+◌, ◌≤◌}
use mathlib.Core.Path.{◌≡◌, refl, ap}
use mathlib.Core.Bool.{Bool, true, false, ◌&&◌, ◌||◌}
use mathlib.Core.Logic.{inl, inr}
use mathlib.Core.List.{List, [], ◌∷◌, ◌++◌, append_assoc}
use native.Mathlib.Omega.{arith}
use go_bootstrap.Prelude.Tests.{if◌then◌else◌, Bool-cases}

module _ {ℓ} {A : Type ℓ} where
  abbrev pub length : List A → ℕ
  length [] = 0
  length (x ∷ xs) = suc (length xs)

  -- the elements that pass a test, in order: a SQL WHERE clause
  abbrev pub keep : (A → Bool) → List A → List A
  keep p [] = []
  keep p (x ∷ xs) = if p x then x ∷ keep p xs else keep p xs

  abbrev pub any : (A → Bool) → List A → Bool
  any p [] = false
  any p (x ∷ xs) = p x || any p xs

  abbrev pub all : (A → Bool) → List A → Bool
  all p [] = true
  all p (x ∷ xs) = p x && all p xs

  pub length-append : (xs ys : List A) → length (xs ++ ys) ≡ length xs + length ys
  length-append [] ys = omega arith
  length-append (x ∷ xs) ys = omega (arith, length-append xs ys)

  pub keep-append : (p : A → Bool) (xs ys : List A) → keep p (xs ++ ys) ≡ keep p xs ++ keep p ys
  keep-append p [] ys = refl
  keep-append p (x ∷ xs) ys = ground (arith, keep-append p xs ys)

  pub length-keep : (p : A → Bool) (xs : List A) → length (keep p xs) ≤ length xs
  length-keep p [] = omega arith
  length-keep p (x ∷ xs) = ground (arith, length-keep p xs)

module _ {ℓ κ} {A : Type ℓ} where
  abbrev pub All : (A → Type κ) → List A → Type κ
  All P [] = Unit
  All P (x ∷ xs) = P x × All P xs

  pub All-append : (P : A → Type κ) (xs ys : List A) → All P xs → All P ys → All P (xs ++ ys)
  All-append P [] ys h k = k
  All-append P (x ∷ xs) ys h k = (h.0, All-append P xs ys h.1 k)

module _ {ℓ} {A : Type ℓ} where
  -- the rows of a SQL UPDATE: those that pass the test are changed
  abbrev pub map_if : (A → Bool) → (A → A) → List A → List A
  map_if p f [] = []
  map_if p f (x ∷ xs) = (if p x then f x else x) ∷ map_if p f xs

  pub keep-none : (p : A → Bool) (xs : List A) → any p xs ≡ false → keep p xs ≡ []
  keep-none p [] h = refl
  keep-none p (x ∷ xs) h = ground (arith, keep-none p xs)

  pub any-keep : (p : A → Bool) (x : A) (xs ys : List A) → keep p xs ≡ x ∷ ys → p x ≡ true
  any-keep p x [] ys h = cc
  any-keep p x (z ∷ xs) ys h = elim (Bool-cases (p z)) [
    | inl passed ↦ ground (arith, passed)
    | inr failed ↦ ground (arith, failed, any-keep p x xs ys)
  ]

  pub any-append : (p : A → Bool) (xs ys : List A) → any p (xs ++ ys) ≡ (any p xs || any p ys)
  any-append p [] ys = refl
  any-append p (x ∷ xs) ys = ground (arith, any-append p xs ys)

-- A change of chosen rows that keeps a test as it is leaves in place the rows that pass it.
module _ {ℓ} {A : Type ℓ} (q r : A → Bool) (f : A → A) where
  changed : (u : A) (b : Bool) → ((v : A) → q (f v) ≡ q v) → q (if b then f u else u) ≡ q u
  changed u true same = same u
  changed u false same = refl

  keep-map_if-nil :
      (l : List A) → ((u : A) → q (f u) ≡ q u) → keep q l ≡ [] → keep q (map_if r f l) ≡ []
  keep-map_if-nil [] same h = refl
  keep-map_if-nil (u ∷ l) same h = elim (Bool-cases (q u)) [
    | inl passed ↦ cc (rw passed at h)
    | inr failed ↦ rw (changed u (r u) same, failed) (keep-map_if-nil l same (rw failed at h))
  ]

  pub keep-map_if :
      (y : A) (l : List A)
      → ((u : A) → q (f u) ≡ q u)
      → r y ≡ true
      → keep q l ≡ y ∷ []
      → keep q (map_if r f l) ≡ f y ∷ []
  keep-map_if y [] same k h = cc
  keep-map_if y (u ∷ l) same k h = elim (Bool-cases (q u)) [
    | inl passed ↦
        let h' : u ∷ keep q l ≡ y ∷ [] = rw passed at h in
        let first : u ≡ y = cc h' in
        rw (changed u (r u) same, passed, first, k)
          (ap (λ xs. f y ∷ xs) (keep-map_if-nil l same (cc h')))
    | inr failed ↦ rw (changed u (r u) same, failed) (keep-map_if y l same k (rw failed at h))
  ]

module _ {ℓ κ} {A : Type ℓ} {B : Type κ} where
  abbrev pub concat_map : (A → List B) → List A → List B
  concat_map f [] = []
  concat_map f (x ∷ xs) = f x ++ concat_map f xs

  pub concat_map-append :
      (f : A → List B) (xs ys : List A)
      → concat_map f (xs ++ ys) ≡ concat_map f xs ++ concat_map f ys
  concat_map-append f [] ys = refl
  concat_map-append f (x ∷ xs) ys =
      rw (concat_map-append f xs ys, append_assoc (f x) (concat_map f xs) (concat_map f ys)) refl
