-- ===== src/Flows/Examples.antt =====
-- A welcome whose sender refuses the mail at first.
use go_bootstrap.Prelude.{
  String, ◌≡◌, refl, Bool, true, false, Option, none, some, length, List, [], ◌∷◌, any, ◌==◌,
}
use go_bootstrap.Errors.{Error, Result, ok, err, sentinel, external}
use go_bootstrap.Store.Demo.{demo_store}
use go_bootstrap.Mailer.{Sender, ses, log_sender, send}
use go_bootstrap.Flows.Welcome.{
  WelcomeData, World, Steps, Body, Invocation, send_welcome, log_follow_up, welcome, invocations,
}
use go_bootstrap.Flows.Welcome.Sending.{IsSent, invocations-IsSent}

abbrev Answered : Type 0
Answered = Option (Result (Unit {0})) × (World × List String)

-- what Inngest records of a body that has run, unless the process crashes first
abbrev behind : Bool → String → List String → Result (Unit {0}) × World → Answered
behind true id j (r, w) = (none, (w, j))
behind false id j (ok u, w) = (some (ok tt), (w, id ∷ j))
behind false id j (err e, w) = (some (err e), (w, j))

-- the journal as the ids of the recorded steps
abbrev run_step : Bool → String → Body → World × List String → Answered
run_step crash id body (w, j) = elim (any (λ k. id == k) j) [
  | true ↦ (some (ok tt), (w, j))
  | false ↦ behind crash id j (body w)
]

recorded :
    (crash : Bool) (id : String) (body : Body) (w : World) (j : List String)
    → any (λ k. id == k) j ≡ true
    → run_step crash id body (w, j) ≡ (some (ok tt), (w, j))
recorded crash id body w j h = rw (run_step, h) refl

behind-ok :
    (id : String) (j : List String) (r : Result (Unit {0}) × World)
    → r.0 ≡ ok tt
    → behind false id j r ≡ (some (ok tt), (r.1, id ∷ j))
behind-ok id j (ok u, w) h = refl
behind-ok id j (err e, w) h = absurd cc

behind-err :
    (id : String) (j : List String) (e : Error) (r : Result (Unit {0}) × World)
    → r.0 ≡ err e
    → behind false id j r ≡ (some (err e), (r.1, j))
behind-err id j e (ok u, w) h = absurd cc
behind-err id j e (err d, w) h = cc

abbrev demo_steps : Steps
demo_steps = record {
  Journal = List String;
  has = λ id j. any (λ k. id == k) j;
  run = run_step;
  run-recorded = recorded;
  record_result = λ id j. id ∷ j;
  has-record_result = λ id k j. refl;
  run-crash = λ id body w j h. rw (run_step, h) refl;
  run-ok = λ id body w j h k. rw (run_step, h) (behind-ok id j (body w) k);
  run-err = λ id body w j e h k. rw (run_step, h) (behind-err id j e (body w) k);
}

abbrev refusing : Sender
refusing = ses (λ from msg. some (sentinel (external "throttled"))) "app@example.com"

abbrev new_user : WelcomeData
new_user = record { user_id = 7; email = "ada@example.com" }

abbrev world : World
world = record { store = demo_store; follow_ups = [] }

abbrev invocation : Sender → Bool → Bool → Invocation
invocation outbox elapsed crash = record {
  outbox = outbox;
  elapsed = elapsed;
  crashes_at_welcome = crash;
  crashes_at_follow_up = false;
}

-- the first is refused, the second crashes behind the mail, the third sends it again, and the fourth
-- writes the follow-up
abbrev tries : List Invocation
tries =
    invocation refusing false false
    ∷ invocation log_sender false true
    ∷ invocation log_sender false false
    ∷ invocation refusing true false
    ∷ []

invocations-IsSent_example :
    IsSent demo_steps new_user demo_store.outbox 1
      (invocations demo_steps new_user tries (world, []))
invocations-IsSent_example =
    invocations-IsSent demo_steps new_user demo_store.outbox tries world [] refl refl

after_four :
    ((invocations demo_steps new_user tries (world, [])).1 ≡ "log-follow-up" ∷ "send-welcome" ∷ [])
    × (length (invocations demo_steps new_user tries (world, [])).0.store.outbox ≡ 2)
unfolding invocations welcome send_welcome log_follow_up send
after_four = (refl, refl)
