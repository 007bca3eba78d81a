-- ===== src/Fixture/Codes.antt =====
-- The codes of a Sequence: none is returned twice, and Next gives up only where it found none.
use go_bootstrap.Prelude.{
  ℕ, zero, suc, String, ◌≡◌, ◌⊎◌, refl, true, false, none, some, List, [], ◌∷◌, ◌==◌, All,
  Bool-cases, inl, inr, arith, subst, sym,
}
use go_bootstrap.Fixture.{
  Source, generate_random_string, exists_in, next_of, max_attempts, next, Next, next_times,
  cons_code,
}

module _ (source : Source) where
  -- the codes that a number of attempts draw
  abbrev pub draws : ℕ → source.Seed → List String
  draws zero seed = []
  draws (suc attempts) seed =
      let (val, after) = generate_random_string source 5 seed in val ∷ draws attempts after

  -- A code that stands in no set before the call, and in the set behind it; or no code, where each of
  -- the codes that were drawn had been used, and the set is as it was.
  abbrev pub Answers : ℕ → List String → source.Seed → Next source → Type 0
  Answers attempts used seed (answer, (used', after)) =
      ((code : String) × (answer ≡ some code)
        × (exists_in source used code ≡ false)
        × (used' ≡ code ∷ used))
      ⊎ ((answer ≡ none)
          × (used' ≡ used)
          × All (λ code. exists_in source used code ≡ true) (draws attempts seed))

  one_more :
      (attempts : ℕ) (used : List String) (seed : source.Seed) (r : Next source)
      → exists_in source used (generate_random_string source 5 seed).0 ≡ true
      → Answers attempts used (generate_random_string source 5 seed).1 r
      → Answers (suc attempts) used seed r
  one_more attempts used seed r h (inl found) = inl found
  one_more attempts used seed r h (inr (gave_up, kept, all_used)) =
      inr (gave_up, kept, (h, all_used))

  next_of-Answers :
      (attempts : ℕ) (used : List String) (seed : source.Seed)
      → Answers attempts used seed (next_of source attempts used seed)
  unfolding next_of
  next_of-Answers zero used seed = inr (refl, refl, tt)
  next_of-Answers (suc attempts) used seed =
      let (val, after) = generate_random_string source 5 seed in
      elim (Bool-cases (exists_in source used val)) [
        | inl there ↦
            let again : next_of source (suc attempts) used seed
                ≡ next_of source attempts used after =
              rw (next_of, there) refl in
            subst (Answers (suc attempts) used seed) (sym again) (
              one_more attempts used seed (next_of source attempts used after) there
                (next_of-Answers attempts used after))
        | inr absent ↦ rw (next_of, absent) (inl (val, refl, absent, refl))
      ]

  -- Next makes at most a thousand attempts: it returns a code that it had not returned before and puts
  -- it into its set, or it panics, with the set as it was, where each of a thousand codes in a row had
  -- been used.
  pub next-Answers :
      (used : List String) (seed : source.Seed)
      → Answers max_attempts used seed (next source used seed)
  unfolding next
  next-Answers used seed = next_of-Answers max_attempts used seed

  -- no code stands twice in the list
  abbrev pub Distinct : List String → Type 0
  Distinct [] = Unit
  Distinct (code ∷ codes) = All (λ c. (code == c) ≡ false) codes × Distinct codes

  abbrev Fresh : List String → List String → Type 0
  Fresh used codes = All (λ c. exists_in source used c ≡ false) codes

  split-Fresh :
      (code : String) (used codes : List String)
      → Fresh (code ∷ used) codes
      → All (λ c. (code == c) ≡ false) codes × Fresh used codes
  split-Fresh code used [] h = (tt, tt)
  split-Fresh code used (c ∷ codes) h =
      let (apart, rest) = split-Fresh code used codes h.1 in
      ((ground (arith, h.0), apart), (ground (arith, h.0), rest))

  added :
      (attempts : ℕ) (used : List String) (seed : source.Seed) (r : Next source)
      (codes : List String)
      → Answers attempts used seed r
      → Distinct codes
      → Fresh r.1.0 codes
      → let all' = cons_code source r.0 codes in Distinct all' × Fresh used all'
  unfolding cons_code
  added attempts used seed r codes (inl (code, found, fresh, grown)) d f =
      let (apart, rest) = split-Fresh code used codes (subst (λ u. Fresh u codes) grown f) in
      rw found ((apart, d), (fresh, rest))
  added attempts used seed r codes (inr (gave_up, kept, all_used)) d f =
      rw gave_up (d, subst (λ u. Fresh u codes) kept f)

  next_times-Fresh :
      (calls : ℕ) (used : List String) (seed : source.Seed)
      → let codes = (next_times source calls used seed).0 in Distinct codes × Fresh used codes
  unfolding next_times
  next_times-Fresh zero used seed = (tt, tt)
  next_times-Fresh (suc calls) used seed =
      let (code, (used', after)) = next source used seed in
      let (d, f) = next_times-Fresh calls used' after in
      added max_attempts used seed (next source used seed) (next_times source calls used' after).0
        (next-Answers used seed) d f

  -- However many calls a Sequence gets, and whatever the source of random numbers yields, no code is
  -- returned twice.
  pub next_times-Distinct :
      (calls : ℕ) (seed : source.Seed) → Distinct (next_times source calls [] seed).0
  next_times-Distinct calls seed = (next_times-Fresh calls [] seed).0
