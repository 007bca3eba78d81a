-- ===== src/Web/Access/Guards.antt =====
-- What stands before a handler that needs a user or a role.
use go_bootstrap.Prelude.{
  ℕ, suc, ◌≡◌, refl, false, none, some, [], ◌∷◌, ◌==◌, eq_iff, nat_eq, keep, Bool-cases, inl, inr,
}
use go_bootstrap.Errors.{Error, is, not_found, wrap, Result, ok, err}
use go_bootstrap.Exec.{wrapping, ◌>>◌}
use go_bootstrap.Store.{User, Store, no_fault}
use go_bootstrap.Platform.{Platform}
use go_bootstrap.Db.Queries.{
  only, find_exactly_one-eq, find_exactly_one-eq-ok, find_exactly_one-selects,
}
use go_bootstrap.Auth.Users.{by_id, users_by_id, password_epoch}
use go_bootstrap.Web.Context.{Site, Ctx, Handler, try_session}
use go_bootstrap.Web.Access.{attach, check_session, load_user}

module _ (site : Site) (p : Platform) where
  -- The user of a session: the only row with the session's user id, of the password generation that
  -- the session was stamped with.
  pub record IsSignedIn (c : Ctx site) (user : User) : Type 0 where
    pub row :
        keep (λ u. nat_eq u.id (site.get_int "user_id" c.session)) c.store.tables.users ≡ user ∷ []
    pub epoch : site.get_string "password_epoch" c.session ≡ password_epoch p user

  -- What LoadUser does with the handler behind it: it runs it, in a context with the user that the
  -- request had or with the user of the session, or it fails and does not run it.
  pub data Loads (next : Handler site) (c : Ctx site) (r : Result (Unit {0}) × Ctx site)
      : Type 0 where
    kept : (c' : Ctx site) → r ≡ next c' → c'.user ≡ c.user → Loads next c r
    signed_in :
        (c' : Ctx site) (user : User)
        → r ≡ next c'
        → c'.user ≡ some user
        → IsSignedIn c user
        → Loads next c r
    failed : (e : Error) (c' : Ctx site) → r ≡ (err e, c') → c'.user ≡ c.user → Loads next c r

  by_id-selects : (id : ℕ) (s : Store) → (by_id p id s).1 ≡ record s { calls = suc s.calls }
  unfolding by_id users_by_id
  by_id-selects id s = find_exactly_one-selects p (users_by_id id) s refl

  by_id-row :
      (id : ℕ) (s : Store) (user : User)
      → (by_id p id s).0 ≡ ok user
      → keep (λ u. nat_eq u.id id) s.tables.users ≡ user ∷ []
  unfolding by_id users_by_id
  by_id-row id s user h = find_exactly_one-eq-ok p (users_by_id id) s user h

  -- the context behind the query of the session's user
  abbrev asked : Ctx site → Ctx site
  asked c = record c { store = (by_id p (site.get_int "user_id" c.session) c.store).1 }

  -- the context in which the session was to be destroyed
  abbrev dropped : Ctx site → Ctx site
  dropped c = record (asked c) { session = (site.destroy c.session).1 }

  destroyed-Loads :
      (next : Handler site) (c : Ctx site) (gone : Result (Unit {0}))
      → (site.destroy c.session).0 ≡ gone
      → Loads next c (
          (do wrapping "destroying stale-epoch session" (try_session site site.destroy); next)
            (asked c))
  destroyed-Loads next c (ok tt) h = rw h (kept (dropped c) refl refl)
  destroyed-Loads next c (err e) h =
      rw h (failed (wrap "destroying stale-epoch session" e) (dropped c) refl refl)

  check_session-Loads :
      (next : Handler site) (c : Ctx site) (found : Result User)
      → (by_id p (site.get_int "user_id" c.session) c.store).0 ≡ found
      → Loads next c (check_session site p next found (asked c))
  unfolding check_session attach
  check_session-Loads next c (err e) h = elim (Bool-cases (is e not_found)) [
    | inl gone ↦
        rw gone (kept (record (asked c) { session = site.remove "user_id" c.session }) refl refl)
    | inr broken ↦ rw broken (failed (wrap "loading session user" e) (asked c) refl refl)
  ]
  check_session-Loads next c (ok user) h =
      elim (Bool-cases (site.get_string "password_epoch" c.session == password_epoch p user)) [
        | inl same ↦ rw same (
            signed_in (record (asked c) { user = some user }) user refl refl
              (record {
                row = by_id-row (site.get_int "user_id" c.session) c.store user h;
                epoch = (eq_iff _ _).0 same;
              }))
        | inr stale ↦ rw stale (destroyed-Loads next c (site.destroy c.session).0 refl)
      ]

  -- LoadUser attaches only the user whose id the session holds and whose password has not changed
  -- since the session signed in, whatever call fails.
  pub load_user-Loads :
      (next : Handler site) (c : Ctx site) → Loads next c (load_user site p next c)
  unfolding load_user
  load_user-Loads next c = elim (Bool-cases (nat_eq (site.get_int "user_id" c.session) 0)) [
    | inl none' ↦ rw none' (kept c refl refl)
    | inr some' ↦
        rw some'
          (check_session-Loads next c (by_id p (site.get_int "user_id" c.session) c.store).0 refl)
  ]

  -- A request of a session that is signed in, under an id other than 0, runs its handler with the user of the session, where
  -- the query of the user does not fail.
  pub load_user-IsSignedIn :
      (next : Handler site) (c : Ctx site) (user : User)
      → IsSignedIn c user
      → nat_eq (site.get_int "user_id" c.session) 0 ≡ false
      → c.store.faults c.store.calls ≡ no_fault
      → load_user site p next c
        ≡ next (record c { store = record c.store { calls = suc c.store.calls }; user = some user })
  unfolding load_user check_session attach by_id users_by_id only
  load_user-IsSignedIn next c user signed there quiet =
      let found =
        find_exactly_one-eq p (users_by_id (site.get_int "user_id" c.session)) c.store (user ∷ [])
          none c.store.tables quiet (rw signed.row refl) in
      rw (there, found, (eq_iff _ _).1 signed.epoch) refl
