-- ===== src/Store/Demo.antt =====
-- A concrete store for the tests: one user, ada, with a reset token, an attempt and no faults.
use go_bootstrap.Prelude.{none, [], ◌∷◌}
use go_bootstrap.Store.{User, PasswordResetToken, Tables, Store, no_fault}

abbrev pub ada : User
ada = record {
  id = 1;
  email = "ada@example.com";
  password_hash = "hash:correct horse";
  name = "Ada";
  roles = "admin" ∷ [];
  created_at = 5;
  updated_at = 5;
}

abbrev pub ada_token : PasswordResetToken
ada_token = record {
  id = 1;
  user_id = 1;
  token_hash = "secret";
  expires_at = 5000;
  used_at = none;
  created_at = 5;
}

abbrev pub demo_tables : Tables
demo_tables = record {
  users = ada ∷ [];
  next_user_id = 2;
  tokens = ada_token ∷ [];
  next_token_id = 2;
  attempts = record { key = "k"; attempted_at = 900 } ∷ [];
  jobs = [];
}

abbrev pub demo_store : Store
demo_store = record {
  tables = demo_tables;
  db_now = 1000;
  app_now = 1000;
  calls = 0;
  faults = λ n. no_fault;
  draws = 0;
  compares = 0;
  slots = 0;
  outbox = [];
}
