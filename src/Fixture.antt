-- ===== src/Fixture.antt =====
-- Package fixture (fixture/fixture.go, fixture/sequence.go): the ids and the codes of test data. SHA-256
-- and the source of random numbers are parameters; the lock of a Sequence makes its calls one after
-- another, which is how they stand here.
pub mod Ids
pub mod Codes
mod Examples
use Prim.Native.Nat.{◌%◌, ◌^◌}
use Prim.Native.String
use go_bootstrap.Prelude.{
  ℕ, zero, suc, true, false, ◌+◌, ◌*◌, String, ◌≡◌, Bool, Option, none, some, List, [], ◌∷◌, any,
  ◌==◌, if◌then◌else◌,
}
use go_bootstrap.Prelude.Text.{◌+++◌}

abbrev pub offset : ℕ
offset = 2 ^ 28

-- binary.BigEndian.Uint32 of the first four bytes
abbrev pub big_endian_uint32 : ℕ → ℕ → ℕ → ℕ → ℕ
big_endian_uint32 a b c d = ((a * 256 + b) * 256 + c) * 256 + d

-- a digest of SHA-256, of which ID reads the first four bytes
pub record Digest : Type 0 where
  pub byte_0 : ℕ
  pub byte_1 : ℕ
  pub byte_2 : ℕ
  pub byte_3 : ℕ
  pub rest : List ℕ

unfoldable pub id : (String → Digest) → String → String → ℕ
id sha256 table name =
    let sum = sha256 (table +++ (":" +++ name)) in
    offset + (big_endian_uint32 sum.byte_0 sum.byte_1 sum.byte_2 sum.byte_3) % offset

abbrev pub max_attempts : ℕ
max_attempts = 1000

-- math/rand: a number below the bound
pub record Source : Type 1 where
  pub Seed : Type 0
  pub int_n : ℕ → Seed → ℕ × Seed

module _ (source : Source) where
  -- the loop of generateRandomString
  unfoldable pub generate_random_string : ℕ → source.Seed → String × source.Seed
  generate_random_string zero seed = ("", seed)
  generate_random_string (suc length) seed =
      let (i, after) = source.int_n 36 seed in
      let (code, last) = generate_random_string length after in
      (String.◌∷◌ (String.char_at "abcdefghijklmnopqrstuvwxyz0123456789" i) code, last)

  -- the set of codes that a Sequence has used
  abbrev pub exists_in : List String → String → Bool
  exists_in used val = any (λ code. code == val) used

  abbrev pub Next : Type 0
  Next = Option String × (List String × source.Seed)

  -- the loop of Next, with the attempts that are left; none is the panic
  unfoldable pub next_of : ℕ → List String → source.Seed → Next
  next_of zero used seed = (none, (used, seed))
  next_of (suc attempts) used seed =
      let (val, after) = generate_random_string 5 seed in
      elim (exists_in used val) [
        | true ↦ next_of attempts used after
        | false ↦ (some val, (val ∷ used, after))
      ]

  unfoldable pub next : List String → source.Seed → Next
  next = next_of max_attempts

  cons_code : Option String → List String → List String
  cons_code none codes = codes
  cons_code (some code) codes = code ∷ codes

  -- the codes that a number of calls return, and what is left; a call that panics returns none
  unfoldable pub next_times :
      ℕ → List String → source.Seed → List String × (List String × source.Seed)
  unfolding cons_code
  next_times zero used seed = ([], (used, seed))
  next_times (suc calls) used seed =
      let (code, (used', after)) = next used seed in
      let (codes, last) = next_times calls used' after in (cons_code code codes, last)
