-- ===== src/Db/Examples.antt =====
-- The theorems about queries, transactions and row maps at a concrete platform and store.
use go_bootstrap.Prelude.{ℕ, ◌≡◌, ◌⊎◌, refl, none, [], ◌∷◌}
use go_bootstrap.Errors.{sentinel, invalid_credentials, ok, err}
use go_bootstrap.Exec.{Exec}
use go_bootstrap.Store.{Store}
use go_bootstrap.Store.Demo.{ada, demo_tables, demo_store}
use go_bootstrap.Db.{in_tx}
use go_bootstrap.Db.RowMap.{RowMap, text}
use go_bootstrap.Db.Transactions.{begun, in_tx-atomic}
use go_bootstrap.Auth.Users.{users_by_id}

-- a function that deletes every user, and then may fail
abbrev wipe : Exec Store ℕ
wipe s = (ok 1, record s { tables = record s.tables { users = [] } })

abbrev wipe_and_fail : Exec Store ℕ
wipe_and_fail s =
    (err (sentinel invalid_credentials), record s { tables = record s.tables { users = [] } })

wiped : (in_tx wipe demo_store).0 ≡ ok 1
unfolding in_tx
wiped = refl

in_tx-atomic_example :
    ((in_tx wipe_and_fail demo_store).1.tables ≡ demo_tables)
    ⊎ ((a : ℕ) × ((wipe_and_fail (begun demo_store)).0 ≡ ok a)
        × ((in_tx wipe_and_fail demo_store).1.tables ≡ (wipe_and_fail (begun demo_store)).1.tables))
in_tx-atomic_example = in_tx-atomic wipe_and_fail demo_store

ada_by_id :
    users_by_id 1 1000 demo_tables ≡ (record { items = ada ∷ []; broken = none }, demo_tables)
unfolding users_by_id
ada_by_id = refl

abbrev demo_map : RowMap
demo_map = ("name", text "") ∷ ("email", text "ada@example.com") ∷ []
