-- ===== src/Db/Pool.antt =====
-- db/db.go: the pool of the process. Parsing the settings, making a pool, its ping and the query for the
-- hstore type are calls of pgx, with their answers as parameters; a pool is known by its settings, which
-- no two open pools share. The
-- tracer of the pool is no part of the model.
use go_bootstrap.Prelude.{
  ℕ, String, ◌≡◌, refl, ◌⊎◌, inl, inr, Option, none, some, List, [], ◌∷◌, keep, not, ◌==◌,
}
use go_bootstrap.Errors.{Error, wrap, Result, ok, err}
use go_bootstrap.Exec.{Exec, lift, wrapping, ◌>>◌}

pub record Pools : Type 0 where
  -- db.Conn
  pub conn : Option String
  -- the pools that were made and not closed
  pub open_pools : List String

-- a process in front of db.Configure
abbrev pub no_pools : Pools
no_pools = record { conn = none; open_pools = [] }

pub record Pgx : Type 0 where
  pub parse_config : String → Result (Unit {0})
  pub new_pool : Result (Unit {0})
  pub ping : Result (Unit {0})

abbrev make_pool : String → Exec Pools (Unit {0})
make_pool dsn s = (ok tt, record s { open_pools = dsn ∷ s.open_pools })

abbrev set_conn : String → Exec Pools (Unit {0})
set_conn dsn s = (ok tt, record s { conn = some dsn })

module _ (pgx : Pgx) where
  unfoldable pub configure : String → Exec Pools (Unit {0})
  configure dsn = do
    wrapping "parsing pool config" (lift (pgx.parse_config dsn))
    wrapping "creating connection pool" (lift pgx.new_pool)
    make_pool dsn
    wrapping "error pinging database" (lift pgx.ping)
    set_conn dsn

-- Close; none is the panic of a nil pool
unfoldable pub close : Pools → Option Pools
close s = elim s.conn [
  | none ↦ none
  | some dsn ↦ some (record s { open_pools = keep (λ d. not (d == dsn)) s.open_pools })
]

-- a type in the type map of a connection
pub data PgType : Type 0 where
  hstore : (oid : ℕ) → PgType
  hstore_array : (oid : ℕ) (element : PgType) → PgType

-- AfterConnect: the two types, where the query finds them
unfoldable pub register_hstore : Option (ℕ × ℕ) → List PgType → List PgType
register_hstore none types = types
register_hstore (some (oid, array_oid)) types =
    hstore_array array_oid (hstore oid) ∷ hstore oid ∷ types

module _ (pgx : Pgx) (dsn : String) (s : Pools) where
  -- how Configure ends
  abbrev pub Outcome : Result (Unit {0}) × Pools → Type 0
  Outcome r =
      ((r ≡ (ok tt, record { conn = some dsn; open_pools = dsn ∷ s.open_pools }))
        × (pgx.ping ≡ ok tt))
      ⊎ ((e : Error) × (r.0 ≡ err e)
          × (r.1.conn ≡ s.conn)
          × ((r.1.open_pools ≡ s.open_pools)
              ⊎ ((r.1.open_pools ≡ dsn ∷ s.open_pools)
                  × ((d : Error) × (pgx.ping ≡ err d) × (e ≡ wrap "error pinging database" d)))))

  outcome :
      (parsed made pinged : Result (Unit {0}))
      → pgx.parse_config dsn ≡ parsed
      → pgx.new_pool ≡ made
      → pgx.ping ≡ pinged
      → Outcome (configure pgx dsn s)
  unfolding configure
  outcome (err e) made pinged h k l = rw (configure, h) (inr (_, refl, refl, inl refl))
  outcome (ok u) (err e) pinged h k l = rw (configure, h, k) (inr (_, refl, refl, inl refl))
  outcome (ok u) (ok v) (err e) h k l =
      rw (configure, h, k, l) (inr (_, refl, refl, inr (refl, (e, refl, refl))))
  outcome (ok u) (ok v) (ok w) h k l = rw (configure, h, k, l) (inl (refl, refl))

  -- Configure sets db.Conn to the new pool where every call succeeds, and otherwise leaves it as it was and
  -- returns an error. The pool that it has made stays open behind an error exactly when the ping fails.
  pub configure-Outcome : Outcome (configure pgx dsn s)
  configure-Outcome = outcome (pgx.parse_config dsn) pgx.new_pool pgx.ping refl refl refl
