-- ===== src/Prelude/Text.antt =====
-- What the program uses of Go's packages strings and unicode/utf8. A text is the native `String`: a
-- sequence of code points, whose `len` is the number of its UTF-8 bytes and whose `count` is the
-- number of its runes. Go strings that are not valid UTF-8 are outside the model.
use Prim.Native.Nat.{ℕ}
use Prim.Native.Char.{Char, code}
use Prim.Native.String
use Prim.Native.String.{String, [], ◌∷◌}
use mathlib.Core.Path.{◌≡◌, refl, ap}
use mathlib.Core.Bool.{Bool, true, false, ◌&&◌, ◌||◌}
use mathlib.Core.Option.{Option, none, some}
use mathlib.Core.List.{List}
use text.Mathlib.Text.{◌==◌, starts_with}
use text.Mathlib.TextLemmas.{cons-append}
use go_bootstrap.Prelude.Tests.{leb, nat_eq, if◌then◌else◌}

infixr 65 ◌+++◌
abbrev pub ◌+++◌ : String → String → String
s +++ t = String.◌++◌ s t

abbrev pub is_empty : String → Bool
is_empty [] = true
is_empty (c ∷ s) = false

pub is_empty-append : (s t : String) → is_empty s ≡ false → is_empty (s +++ t) ≡ false
is_empty-append [] t h = cc
is_empty-append (c ∷ s) t h = ap is_empty (cons-append c s t)

-- unicode.IsSpace
is_space_code : ℕ → Bool
is_space_code c =
    (leb 9 c && leb c 13)
    || nat_eq c 32
    || nat_eq c 0x85
    || nat_eq c 0xa0
    || nat_eq c 0x1680
    || (leb 0x2000 c && leb c 0x200a)
    || nat_eq c 0x2028
    || nat_eq c 0x2029
    || nat_eq c 0x202f
    || nat_eq c 0x205f
    || nat_eq c 0x3000

unfoldable pub is_space : Char → Bool
unfolding is_space_code
is_space c = is_space_code (code c)

trim_left : String → String
trim_left [] = []
trim_left (c ∷ s) = if is_space c then trim_left s else c ∷ s

cons_unless_blank : Char → String → String
cons_unless_blank c [] = if is_space c then [] else c ∷ []
cons_unless_blank c (d ∷ s) = c ∷ d ∷ s

trim_right : String → String
trim_right [] = []
trim_right (c ∷ s) = cons_unless_blank c (trim_right s)

-- strings.TrimSpace
unfoldable pub trim_space : String → String
unfolding trim_left trim_right cons_unless_blank is_space
trim_space s = trim_right (trim_left s)

-- strings.ToLower and strings.ToUpper over a table of case mappings
unfoldable pub map_chars : (Char → Char) → String → String
map_chars f [] = []
map_chars f (c ∷ s) = f c ∷ map_chars f s

unfoldable pub cons_head : Char → List String → List String
cons_head c List.[] = List.◌∷◌ (c ∷ []) List.[]
cons_head c (List.◌∷◌ p ps) = List.◌∷◌ (c ∷ p) ps

-- strings.Split(s, sep) and strings.SplitSeq(s, sep) at a separator of one character
unfoldable pub split : ℕ → String → List String
unfolding cons_head
split sep [] = List.◌∷◌ [] List.[]
split sep (c ∷ s) =
    let rest = split sep s in if nat_eq (code c) sep then List.◌∷◌ [] rest else cons_head c rest

cons_cut : Char → Option (String × String) → Option (String × String)
cons_cut c none = none
cons_cut c (some (before, after)) = some (c ∷ before, after)

-- strings.SplitN(s, sep, 2), strings.IndexByte(s, sep): the texts around the first separator
unfoldable pub cut : ℕ → String → Option (String × String)
unfolding cons_cut
cut sep [] = none
cut sep (c ∷ s) =
    let rest = cut sep s in if nat_eq (code c) sep then some ([], s) else cons_cut c rest

-- strings.Contains
unfoldable pub contains : String → String → Bool
contains [] t = is_empty t
contains (c ∷ s) t = starts_with (c ∷ s) t || contains s t

-- strings.HasSuffix
unfoldable pub has_suffix : String → String → Bool
has_suffix [] t = is_empty t
has_suffix (c ∷ s) t = (c ∷ s) == t || has_suffix s t

-- strings.TrimSuffix
unfoldable pub trim_suffix : String → String → String
trim_suffix [] t = []
trim_suffix (c ∷ s) t = let rest = trim_suffix s t in if (c ∷ s) == t then [] else c ∷ rest

strip_left : ℕ → String → String
strip_left sep [] = []
strip_left sep (c ∷ s) = let rest = strip_left sep s in if nat_eq (code c) sep then rest else c ∷ s

strip_cons : ℕ → Char → String → String
strip_cons sep c [] = if nat_eq (code c) sep then [] else c ∷ []
strip_cons sep c (d ∷ s) = c ∷ d ∷ s

strip_right : ℕ → String → String
strip_right sep [] = []
strip_right sep (c ∷ s) = strip_cons sep c (strip_right sep s)

-- strings.Trim(s, cutset) at a cutset of one character
unfoldable pub trim : ℕ → String → String
unfolding strip_left strip_right strip_cons
trim sep s = strip_right sep (strip_left sep s)

-- strings.Join
unfoldable pub join : String → List String → String
join sep List.[] = []
join sep (List.◌∷◌ s List.[]) = s
join sep (List.◌∷◌ s (List.◌∷◌ t ts)) = s +++ (sep +++ join sep (List.◌∷◌ t ts))

trims : trim_space " \t a b \n" ≡ "a b"
unfolding trim_space
trims = refl
