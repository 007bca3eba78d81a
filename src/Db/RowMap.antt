-- ===== src/Db/RowMap.antt =====
-- db/rowmap.go: the map from columns to values that inserts and updates are built from.
use go_bootstrap.Prelude.{
  ℕ, String, ◌≡◌, refl, Bool, true, false, ◌&&◌, Option, none, some, List, [], ◌∷◌, arith, ◌==◌,
  eq_iff, nat_eq, if◌then◌else◌, any,
}
use go_bootstrap.Prelude.Text.{is_empty}

-- A Go value as the driver receives it. The empty list of texts stands for the nil slice.
pub data Value : Type 0 where
  null : Value
  text : String → Value
  num : ℕ → Value
  texts : List String → Value

abbrev pub RowMap : Type 0
RowMap = List (String × Value)

abbrev no_texts : List String → Bool
no_texts [] = true
no_texts (s ∷ l) = false

-- v == nil || reflect.ValueOf(v).IsZero()
unfoldable pub is_unset : Value → Bool
is_unset null = true
is_unset (text s) = is_empty s
is_unset (num n) = nat_eq n 0
is_unset (texts l) = no_texts l

unfoldable pub lookup : String → RowMap → Option Value
lookup k [] = none
lookup k ((j, v) ∷ rm) = if j == k then some v else lookup k rm

unfoldable pub remove : String → RowMap → RowMap
remove k [] = []
remove k ((j, v) ∷ rm) = if j == k then remove k rm else (j, v) ∷ remove k rm

-- one round of the loop
drop_unset : String → Option Value → RowMap → RowMap
drop_unset col none rm = rm
drop_unset col (some v) rm = if is_unset v then remove col rm else rm

unfoldable pub filter_unset : RowMap → List String → RowMap
unfolding drop_unset
filter_unset rm [] = rm
filter_unset rm (col ∷ columns) = filter_unset (drop_unset col (lookup col rm) rm) columns

pub lookup-remove :
    (k j : String) (rm : RowMap) → lookup j (remove k rm) ≡ (if k == j then none else lookup j rm)
unfolding lookup remove
lookup-remove k j [] = ground arith
lookup-remove k j ((i, v) ∷ rm) =
    ground (arith, lookup-remove k j rm, eq_iff i k, eq_iff i j, eq_iff k j)

abbrev pub unset : Option Value → Bool
unset none = false
unset (some v) = is_unset v

lookup-drop_unset :
    (k j : String) (rm : RowMap)
    → lookup j (drop_unset k (lookup k rm) rm)
      ≡ (if k == j && unset (lookup j rm) then none else lookup j rm)
unfolding drop_unset
lookup-drop_unset k j rm = ground (arith, lookup-remove k j rm, eq_iff k j)

-- What `filter_unset` leaves under a column: nothing, if the column is listed and its value is
-- unset, and else what stood there.
pub lookup-filter_unset :
    (rm : RowMap) (columns : List String) (j : String)
    → lookup j (filter_unset rm columns)
      ≡ (if any (λ c. c == j) columns && unset (lookup j rm) then none else lookup j rm)
unfolding filter_unset
lookup-filter_unset rm [] j = refl
lookup-filter_unset rm (k ∷ ks) j =
    ground
      (arith, lookup-filter_unset (drop_unset k (lookup k rm) rm) ks j, lookup-drop_unset k j rm)
