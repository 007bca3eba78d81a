-- ===== src/Web/Answers.antt =====
-- Handlers that answer: the rules by which a handler is seen to answer.
use go_bootstrap.Prelude.{
  ◌≡◌, ◌⊎◌, refl, Bool, true, false, Option, none, some, is_some, if◌then◌else◌, inr,
}
use go_bootstrap.Errors.{Error, Result, ok, err}
use go_bootstrap.Exec.{continue}
use go_bootstrap.Web.Context.{Site, Ctx, Handler}

module _ {site : Site} where
  -- A result that is no error has a response.
  abbrev pub Answered : Result (Unit {0}) × Ctx site → Type 0
  Answered r = (is_some r.1.response ≡ true) ⊎ ((e : Error) × (r.0 ≡ err e))

  -- Whenever the handler returns no error, it has written a response.
  abbrev pub Answers : Handler site → Type 0
  Answers handler = (c : Ctx site) → Answered (handler c)

  module _ {A : Type 0} where
    pub continue-Answered :
        (r : Result A) (next : A → Handler site) (c : Ctx site)
        → ((a : A) → Answers (next a))
        → Answered (continue r next c)
    continue-Answered (ok a) next c h = h a c
    continue-Answered (err e) next c h = inr (e, refl)

    pub option-Answered :
        (o : Option A) (there : A → Result (Unit {0}) × Ctx site)
        (absent : Result (Unit {0}) × Ctx site)
        → ((a : A) → Answered (there a))
        → Answered absent
        → Answered (elim o [ some a ↦ there a | none ↦ absent ])
    option-Answered none there absent h k = k
    option-Answered (some a) there absent h k = h a

  pub fail-Answered : (e : Error) (c : Ctx site) → Answered (err e, c)
  fail-Answered e c = inr (e, refl)

  pub if-Answered :
      (b : Bool) (yes' no' : Handler site) (c : Ctx site)
      → Answered (yes' c)
      → Answered (no' c)
      → Answered ((if b then yes' else no') c)
  if-Answered true yes' no' c h k = h
  if-Answered false yes' no' c h k = k

  pub test-Answered :
      (b : Bool) (yes' no' : Result (Unit {0}) × Ctx site)
      → Answered yes'
      → Answered no'
      → Answered (if b then yes' else no')
  test-Answered true yes' no' h k = h
  test-Answered false yes' no' h k = k
