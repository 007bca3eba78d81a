-- ===== src/Commands/Createuser.antt =====
-- cmd/createuser/main.go. Flag parsing and what is printed are not modelled; the opening of the pool and
-- Inngest are parameters.
use go_bootstrap.Prelude.{
  ℕ, String, ◌≡◌, refl, not, Option, none, some, List, [], ◌∷◌, ◌++◌, map, keep, append-nil,
  append_assoc, Bool-cases, inl, inr, if◌then◌else◌, ◌∙◌,
}
use go_bootstrap.Prelude.Text.{is_empty, split, trim_space}
use go_bootstrap.Errors.{Error, Result, ok, err}
use go_bootstrap.Store.{User, Store}
use go_bootstrap.Platform.{Platform}
use go_bootstrap.Auth.Users.{CreateInput, create}
use go_bootstrap.Flows.{FlowState, Inngest, configure_flows, user_created, send_event}

pub record Flags : Type 0 where
  pub email : String
  pub password : String
  pub name : String
  pub roles : String

-- the loop over the parts of -roles
unfoldable pub role_list : List String → List String → List String
role_list [] roles = roles
role_list (part ∷ parts) roles =
    role_list parts
      (if not (is_empty (trim_space part)) then roles ++ trim_space part ∷ [] else roles)

abbrev pub input : Flags → CreateInput
input flags = record {
  email = flags.email;
  password = flags.password;
  name = flags.name;
  roles = role_list (split b',' flags.roles) [];
}

-- the status with which the process exits, the store, and the state of package flows
abbrev pub Exit : Type 0
Exit = ℕ × (Store × FlowState)

role_list_lem :
    (parts roles : List String)
    → role_list parts roles ≡ roles ++ keep (λ role. not (is_empty role)) (map trim_space parts)
unfolding role_list
role_list_lem [] roles = rw (append-nil roles) refl
role_list_lem (part ∷ parts) roles = elim (Bool-cases (is_empty (trim_space part))) [
  | inl blank ↦ rw blank (role_list_lem parts roles)
  | inr named ↦ rw named (
      role_list_lem parts (roles ++ trim_space part ∷ [])
      ∙ append_assoc roles (trim_space part ∷ []) _)
]

abbrev pub status : Result User → ℕ
status (ok user) = 0
status (err e) = 1

abbrev pub given : Flags → CreateInput
given flags = record {
  email = flags.email;
  password = flags.password;
  name = flags.name;
  roles = keep (λ role. not (is_empty role)) (map trim_space (split b',' flags.roles));
}

module _ (p : Platform) (inngest : Inngest) (base_name : String) where
  -- the welcome event, whose failures are printed
  unfoldable pub welcome : User → FlowState → FlowState
  welcome user flows = elim (configure_flows inngest base_name flows).0 [
    | err e ↦ (configure_flows inngest base_name flows).1
    | ok u ↦
        (send_event inngest (record { name = user_created; user_id = user.id; email = user.email })
          (configure_flows inngest base_name flows).1).1
  ]

  created : Result User × Store → FlowState → Exit
  created (err e, store) flows = (1, (store, flows))
  created (ok user, store) flows = (0, (store, welcome user flows))

  unfoldable pub run_createuser : Option Error → Flags → Store → FlowState → Exit
  unfolding created
  run_createuser (some e) flags store flows = (1, (store, flows))
  run_createuser none flags store flows = created (create p (input flags) store) flows

  abbrev pub welcomed : Result User → FlowState → FlowState
  welcomed (ok user) flows = welcome user flows
  welcomed (err e) flows = flows

  created_lem :
      (r : Result User × Store) (flows : FlowState)
      → created r flows ≡ (status r.0, (r.1, welcomed r.0 flows))
  unfolding created
  created_lem (ok user, store) flows = refl
  created_lem (err e, store) flows = refl

  -- With a pool that opens, createuser does to the store what auth.Create does for the flags, with the
  -- roles that stand between commas, trimmed, without the blank ones and in their order. It exits with
  -- status 0 exactly when the user was created: a welcome event that cannot be sent changes neither, and
  -- none is tried for a user that was not created.
  pub run_createuser_lem :
      (flags : Flags) (store : Store) (flows : FlowState)
      → let r = create p (given flags) store in
        run_createuser none flags store flows ≡ (status r.0, (r.1, welcomed r.0 flows))
  unfolding run_createuser
  run_createuser_lem flags store flows =
      rw (role_list_lem (split b',' flags.roles) [])
        (created_lem (create p (given flags) store) flows)
