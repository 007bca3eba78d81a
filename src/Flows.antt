-- ===== src/Flows.antt =====
-- Package flows (flows/flows.go): the process-wide client of Inngest, as a state, and the events that are
-- sent. Building the client, registering the welcome flow and sending are calls of a third party; the
-- steps of the welcome flow are run by it and are not modelled.
pub mod Welcome
mod Examples
use go_bootstrap.Prelude.{ℕ, String, Option, none, some, List, [], ◌∷◌, ◌++◌, if◌then◌else◌}
use go_bootstrap.Prelude.Text.{is_empty, ◌+++◌}
use go_bootstrap.Errors.{detailed, not_configured, wrap, Result, ok, err}
use go_bootstrap.Exec.{Exec, lift, wrapping, ◌>>◌}

-- an event with the payload of UserCreated
pub record SentEvent : Type 0 where
  pub name : String
  pub user_id : ℕ
  pub email : String

-- the client that Configure has stored, by its app id, and the events that have been published
pub record FlowState : Type 0 where
  pub client : Option String
  pub sent : List SentEvent

-- what the calls of Inngest answer
pub record Inngest : Type 0 where
  pub new_client : Result (Unit {0})
  pub create_function : Result (Unit {0})
  pub publish : SentEvent → Result (Unit {0})

unfoldable pub app_id : String → String
app_id base_name = if is_empty base_name then "app" else base_name

abbrev pub user_created : String
user_created = "app/user.created"

module _ (inngest : Inngest) where
  store_client : String → Exec FlowState (Unit {0})
  store_client id s = (ok tt, record s { client = some id })

  unfoldable pub configure_flows : String → Exec FlowState (Unit {0})
  unfolding store_client
  configure_flows base_name = do
    wrapping "creating inngest client" (lift inngest.new_client)
    wrapping "registering welcome flow" (lift inngest.create_function)
    store_client (app_id base_name)

  published : SentEvent → Result (Unit {0}) → Exec FlowState (Unit {0})
  published event (ok u) s = (ok tt, record s { sent = s.sent ++ event ∷ [] })
  published event (err e) s = (err (wrap ("sending " +++ event.name) e), s)

  unfoldable pub send_event : SentEvent → Exec FlowState (Unit {0})
  unfolding published
  send_event event s = elim s.client [
    | none ↦ (err (detailed not_configured ("event " +++ event.name)), s)
    | some id ↦ published event (inngest.publish event) s
  ]
