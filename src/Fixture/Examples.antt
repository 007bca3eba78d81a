-- ===== src/Fixture/Examples.antt =====
-- An id, and two codes of a source that repeats itself.
use go_bootstrap.Prelude.{ℕ, suc, String, ◌≡◌, refl, [], ◌∷◌}
use go_bootstrap.Fixture.{Digest, id, Source, next, next_of, next_times, generate_random_string}

abbrev demo_sha256 : String → Digest
demo_sha256 text = record { byte_0 = 255; byte_1 = 255; byte_2 = 255; byte_3 = 254; rest = [] }

id_example : id demo_sha256 "users" "ada" ≡ 536870910
unfolding id
id_example = refl

-- a source that counts, by five to a code
abbrev counting : Source
counting = record { Seed = ℕ; int_n = λ bound seed. (seed, suc seed) }

codes_example : (next_times counting 2 [] 0).0 ≡ "abcde" ∷ "fghij" ∷ []
unfolding next_times next next_of generate_random_string
codes_example = refl
