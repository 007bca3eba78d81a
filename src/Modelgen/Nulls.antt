-- ===== src/Modelgen/Nulls.antt =====
-- goType of cmd/modelgen/main.go: which columns get a Go type that holds a NULL.
use go_bootstrap.Prelude.{
  String, ◌≡◌, refl, sym, subst, ◌∙◌, arith, Bool, true, false, not, ◌&&◌, ◌||◌, Option, none, some,
  List, [], ◌∷◌, all,
}
use text.Mathlib.Text.{starts_with}
use text.Mathlib.TextPositions.{starts_with-append}
use go_bootstrap.Errors.{ok}
use go_bootstrap.Modelgen.{
  Column, base_types, lookup, is_composite, is_integer_key, wrapped, go_type,
}

-- a Go type that has nil among its values
abbrev pub is_nilable : String → Bool
is_nilable type = starts_with type "*" || is_composite type

abbrev plain : String × String → Bool
plain (udt, type) = not (starts_with type "*")

lookup-plain :
    (entries : List (String × String)) (key : String) (type : String)
    → all plain entries ≡ true
    → lookup entries key ≡ some type
    → starts_with type "*" ≡ false
lookup-plain [] key type h k = cc
lookup-plain ((udt, t) ∷ entries) key type h k = ground (arith, h, k, lookup-plain entries key type)

wrapped-is_nilable :
    (col : Column) (base : Option String) (type : String)
    → ((t : String) → base ≡ some t → starts_with t "*" ≡ false)
    → wrapped col base ≡ ok type
    → is_nilable type ≡ (col.nullable || is_composite type)
wrapped-is_nilable col none type h k = cc
wrapped-is_nilable col (some base) type h k =
    ground (arith, k, h base refl, starts_with-append "*" base)

module _ (col : Column) (type : String) where
  keyed :
      (key : Bool)
      → is_integer_key col ≡ key
      → go_type col ≡ ok type
      → is_nilable type ≡ (not key && (col.nullable || is_composite type))
  unfolding go_type
  keyed true k h =
      let found : ok "int64" ≡ ok type = sym (rw (go_type, k) refl) ∙ h in
      let same : "int64" ≡ type = cc in subst (λ t. is_nilable t ≡ false) same refl
  keyed false k h =
      wrapped-is_nilable col (lookup base_types col.udt) type
        (λ t found. lookup-plain base_types col.udt t refl found) (sym (rw (go_type, k) refl) ∙ h)

-- The Go type of a column has a nil value when the column may hold a NULL, when it is a slice or a map,
-- and in no other case; an integer primary key never has one.
pub go_type-is_nilable :
    (col : Column) (type : String)
    → go_type col ≡ ok type
    → is_nilable type ≡ (not (is_integer_key col) && (col.nullable || is_composite type))
go_type-is_nilable col type h = keyed col type (is_integer_key col) refl h
