-- ===== src/Commands/Examples.antt =====
-- A user with two roles, and commands of migrate.
use go_bootstrap.Prelude.{◌≡◌, refl, none, [], ◌∷◌}
use go_bootstrap.Prelude.Text.{split, trim_space}
use go_bootstrap.Errors.{ok}
use go_bootstrap.Flows.{FlowState, Inngest}
use go_bootstrap.Commands.Createuser.{Flags, role_list}
use go_bootstrap.Commands.Migrate.{goose, Tools, exit_status, main_err}

abbrev flags : Flags
flags = record {
  email = "bob@example.com";
  password = "battery staple";
  name = "Bob";
  roles = "admin, ,billing";
}

abbrev no_flows : FlowState
no_flows = record { client = none; sent = [] }

abbrev inngest : Inngest
inngest = record { new_client = ok tt; create_function = ok tt; publish = λ event. ok tt }

roles_of_flags : role_list (split b',' flags.roles) [] ≡ "admin" ∷ "billing" ∷ []
unfolding role_list split trim_space
roles_of_flags = refl

abbrev working : Tools
working = record { set_dialect = ok tt; open_db = ok tt; answer = λ call. ok tt }

down : main_err working ("migrate" ∷ "down" ∷ []) [] ≡ (ok tt, goose "down" ∷ [])
unfolding main_err
down = refl

unknown_status : exit_status (main_err working ("migrate" ∷ "sideways" ∷ []) []).0 ≡ 2
unfolding exit_status main_err
unknown_status = refl
