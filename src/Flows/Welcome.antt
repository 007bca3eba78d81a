-- ===== src/Flows/Welcome.antt =====
-- flows/welcome.go: the flow behind app/user.created. Inngest runs the function again and again until it
-- ends; its steps are a parameter, with what their documentation promises: a step whose result is recorded
-- is not run again, one that succeeds is recorded behind its body, and one that fails is not, while it is
-- retried. A crash between the body and the record ends the invocation, and the step is run again by the
-- next. The sleep ends an invocation until a day has passed.
pub mod Sending
use go_bootstrap.Prelude.{
  ℕ, String, ◌≡◌, Bool, true, false, ◌||◌, Option, none, some, List, [], ◌∷◌, ◌++◌, ◌==◌,
  if◌then◌else◌,
}
use go_bootstrap.Errors.{Error, wrap, Result, ok, err}
use go_bootstrap.Exec.{Exec}
use go_bootstrap.Store.{Message, Store}
use go_bootstrap.Mailer.{Sender, send}

pub record WelcomeData : Type 0 where
  pub user_id : ℕ
  pub email : String

-- what the steps change: the store with its outbox, and the lines of the follow-up
pub record World : Type 0 where
  pub store : Store
  pub follow_ups : List ℕ

abbrev pub Body : Type 0
Body = Exec World (Unit {0})

-- step.Run, over the results that Inngest has recorded. Its first argument says whether the process crashes
-- between the body of the step and the record; none is such a crash.
pub record Steps : Type 1 where
  pub Journal : Type 0
  pub has : String → Journal → Bool
  pub run : Bool → String → Body → World × Journal → Option (Result (Unit {0})) × (World × Journal)
  pub run-recorded :
      (crash : Bool) (id : String) (body : Body) (w : World) (j : Journal)
      → has id j ≡ true
      → run crash id body (w, j) ≡ (some (ok tt), (w, j))
  pub record_result : String → Journal → Journal
  pub has-record_result :
      (id k : String) (j : Journal) → has k (record_result id j) ≡ (k == id || has k j)
  pub run-crash :
      (id : String) (body : Body) (w : World) (j : Journal)
      → has id j ≡ false
      → run true id body (w, j) ≡ (none, ((body w).1, j))
  pub run-ok :
      (id : String) (body : Body) (w : World) (j : Journal)
      → has id j ≡ false
      → (body w).0 ≡ ok tt
      → run false id body (w, j) ≡ (some (ok tt), ((body w).1, record_result id j))
  pub run-err :
      (id : String) (body : Body) (w : World) (j : Journal) (e : Error)
      → has id j ≡ false
      → (body w).0 ≡ err e
      → run false id body (w, j) ≡ (some (err e), ((body w).1, j))

unfoldable pub welcome_message : WelcomeData → Message
welcome_message data' = record {
  to = data'.email;
  subject = "Welcome!";
  body = "Thanks for signing up.";
}

unfoldable pub send_welcome : Sender → WelcomeData → Body
send_welcome outbox data' w = (
  (send outbox (welcome_message data') w.store).0,
  record w { store = (send outbox (welcome_message data') w.store).1 },
)

unfoldable pub log_follow_up : WelcomeData → Body
log_follow_up data' w = (ok tt, record w { follow_ups = w.follow_ups ++ data'.user_id ∷ [] })

-- how one invocation of the function ends
pub data Ending : Type 0 where
  sleeps completes crashes : Ending
  fails : Error → Ending

-- What one invocation meets: the sender, whether the day of the sleep has passed, and whether the process
-- crashes between the body of the first step, or of the second, and its record.
pub record Invocation : Type 0 where
  pub outbox : Sender
  pub elapsed : Bool
  pub crashes_at_welcome : Bool
  pub crashes_at_follow_up : Bool

module _ (steps : Steps) (data' : WelcomeData) where
  abbrev pub State : Type 0
  State = World × steps.Journal

  followed : Option (Result (Unit {0})) × State → Ending × State
  followed (none, s) = (crashes, s)
  followed (some (ok u), s) = (completes, s)
  followed (some (err e), s) = (fails (wrap "follow-up" e), s)

  after_welcome : Invocation → Option (Result (Unit {0})) × State → Ending × State
  unfolding followed
  after_welcome i (none, s) = (crashes, s)
  after_welcome i (some (err e), s) = (fails (wrap "send-welcome" e), s)
  after_welcome i (some (ok u), s) =
      if i.elapsed
      then followed (steps.run i.crashes_at_follow_up "log-follow-up" (log_follow_up data') s)
      else (sleeps, s)

  -- one invocation
  unfoldable pub welcome : Invocation → State → Ending × State
  unfolding after_welcome
  welcome i s =
      after_welcome i
        (steps.run i.crashes_at_welcome "send-welcome" (send_welcome i.outbox data') s)

  -- The invocations of one event.
  unfoldable pub invocations : List Invocation → State → State
  invocations [] s = s
  invocations (i ∷ rest) s = invocations rest (welcome i s).1
