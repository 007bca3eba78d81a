-- ===== src/Modelgen/Naming.antt =====
-- The names that cmd/modelgen/main.go makes: which columns have one, and what a receiver is not.
use Prim.Native.Char.{Char, code}
use go_bootstrap.Prelude.{
  String, ◌≡◌, refl, Bool, true, false, not, ◌||◌, is_some, Option, none, some, List, [], ◌∷◌, ◌==◌,
  any, nat_eq, Bool-cases, inl, inr, ◌∙◌, if◌then◌else◌,
}
use go_bootstrap.Prelude.Text.{is_empty, split, cons_head, map_chars}
use go_bootstrap.Modelgen.{part_name, joined, part_names, field_name, receiver_name, to_lower}

-- A scan of a column's name, which is `fresh` at the start of a part: a part has no character.
abbrev pub torn : Bool → String → Bool
torn fresh String.[] = fresh
torn fresh (String.◌∷◌ c s) = if nat_eq (code c) b'_' then fresh || torn true s else torn false s

is_some-part_name : (c : Char) (s : String) → is_some (part_name (String.◌∷◌ c s)) ≡ true
is_some-part_name c s = elim (Bool-cases (String.◌∷◌ c s == "id")) [
  | inl h ↦ rw h refl
  | inr h ↦ rw h refl
]

is_some-joined :
    (part rest : Option String) → is_some part ≡ true → is_some (joined part rest) ≡ is_some rest
is_some-joined none rest h = cc
is_some-joined (some part) none h = refl
is_some-joined (some part) (some rest) h = refl

is_some-part_names : (parts : List String) → is_some (part_names parts) ≡ not (any is_empty parts)
is_some-part_names [] = refl
is_some-part_names (String.[] ∷ parts) = refl
is_some-part_names (String.◌∷◌ c s ∷ parts) =
    is_some-joined (part_name (String.◌∷◌ c s)) (part_names parts) (is_some-part_name c s)
    ∙ is_some-part_names parts

any-cons_head :
    (c d : Char) (parts : List String)
    → any is_empty (cons_head c (cons_head d parts)) ≡ any is_empty (cons_head d parts)
unfolding cons_head
any-cons_head c d [] = refl
any-cons_head c d (part ∷ parts) = refl

any-split :
    (s : String)
    → (any is_empty (split b'_' s) ≡ torn true s)
      × ((c : Char) → any is_empty (cons_head c (split b'_' s)) ≡ torn false s)
unfolding split cons_head
any-split String.[] = (refl, λ c. refl)
any-split (String.◌∷◌ d s) = elim (Bool-cases (nat_eq (code d) b'_')) [
  | inl there ↦ rw there (refl, λ c. (any-split s).0)
  | inr absent ↦
      rw absent ((any-split s).1 d, λ c. any-cons_head c d (split b'_' s) ∙ (any-split s).1 d)
]

-- fieldName returns a name for exactly the columns none of whose parts between underscores is empty,
-- and panics for the others: for the empty name, for one that begins or ends with an underscore, and
-- for one with two underscores in a row.
pub is_some-field_name : (column : String) → is_some (field_name column) ≡ not (torn true column)
unfolding field_name
is_some-field_name column = rw (is_some-part_names (split b'_' column), (any-split column).0) refl

spared :
    (name : String)
    → let r = if name == "db" || name == "pgsql" || name == "time" then "m" else name in
      (r == "db" ≡ false) × (r == "pgsql" ≡ false) × (r == "time" ≡ false)
spared name = elim (Bool-cases (name == "db")) [
  | inl db ↦ rw db (refl, refl, refl)
  | inr no_db ↦ elim (Bool-cases (name == "pgsql")) [
    | inl pgsql ↦ rw (no_db, pgsql) (refl, refl, refl)
    | inr no_pgsql ↦ elim (Bool-cases (name == "time")) [
      | inl time ↦ rw (no_db, no_pgsql, time) (refl, refl, refl)
      | inr no_time ↦ rw (no_db, no_pgsql, no_time) (no_db, no_pgsql, no_time)
    ]
  ]
]

-- A receiver has none of the names of the packages that the generated file imports.
pub receiver_name-free :
    (type_name : String)
    → (receiver_name type_name == "db" ≡ false)
      × (receiver_name type_name == "pgsql" ≡ false)
      × (receiver_name type_name == "time" ≡ false)
unfolding receiver_name
receiver_name-free type_name = spared (map_chars to_lower type_name)
