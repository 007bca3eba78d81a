-- ===== src/Web/Access/Roles.antt =====
-- What LoadUser and RequireRole together let through.
use go_bootstrap.Prelude.{
  suc, String, ◌≡◌, ◌⊎◌, refl, ◌∙◌, true, false, none, some, [], ◌∷◌, ◌==◌, nat_eq, keep,
  Bool-cases, inl, inr,
}
use go_bootstrap.Errors.{is, not_found, Result, ok, err}
use go_bootstrap.Exec.{pure, wrapping, ◌>>◌}
use go_bootstrap.Store.{User, no_fault}
use go_bootstrap.Platform.{Platform}
use go_bootstrap.Db.Queries.{only, find_exactly_one-eq}
use go_bootstrap.Auth.Users.{by_id, users_by_id, password_epoch, has_role}
use go_bootstrap.Web.Context.{Site, Ctx, Handler, try_session}
use go_bootstrap.Web.Access.{
  attach, check_session, load_user, require_signin, require_policy, require_role, allowed,
}
use go_bootstrap.Web.Access.Guards.{IsSignedIn, kept, signed_in, failed, load_user-Loads}

module _ (site : Site) (p : Platform) where
  destroy-then :
      (next : Handler site) (c : Ctx site) (gone : Result (Unit {0}))
      → (site.destroy c.session).0 ≡ gone
      → (do wrapping "destroying stale-epoch session" (try_session site site.destroy); next) c
        ≡ (do
          (do wrapping "destroying stale-epoch session" (try_session site site.destroy); pure tt)
          next)
            c
  destroy-then next c (ok tt) h = rw h
  destroy-then next c (err e) h = rw h

  check_session-then :
      (next : Handler site) (found : Result User) (c : Ctx site)
      → check_session site p next found c ≡ (do check_session site p (pure tt) found; next) c
  unfolding check_session attach
  check_session-then next (err e) c = elim (Bool-cases (is e not_found)) [
    | inl gone ↦ rw gone
    | inr broken ↦ rw broken
  ]
  check_session-then next (ok user) c =
      elim (Bool-cases (site.get_string "password_epoch" c.session == password_epoch p user)) [
        | inl same ↦ rw same
        | inr stale ↦ rw stale (destroy-then next c (site.destroy c.session).0 refl)
      ]

  -- LoadUser is done with its own work before it runs the handler behind it.
  pub load_user-then :
      (next : Handler site) (c : Ctx site)
      → load_user site p next c ≡ (do load_user site p (pure tt); next) c
  unfolding load_user
  load_user-then next c = elim (Bool-cases (nat_eq (site.get_int "user_id" c.session) 0)) [
    | inl none' ↦ rw none'
    | inr some' ↦ rw some' (
        check_session-then next (by_id p (site.get_int "user_id" c.session) c.store).0
          (record c { store = (by_id p (site.get_int "user_id" c.session) c.store).1 }))
  ]

  turned_away :
      (role : String) (next other : Handler site) (c : Ctx site)
      → c.user ≡ none
      → require_role site role next c ≡ require_role site role other c
  unfolding require_role require_policy require_signin
  turned_away role next other c h = rw h

  with_role :
      (role : String) (next other : Handler site) (c : Ctx site) (user : User)
      → c.user ≡ some user
      → ((has_role user role ≡ true) × (require_role site role next c ≡ next c))
        ⊎ (require_role site role next c ≡ require_role site role other c)
  unfolding require_role require_policy require_signin allowed
  with_role role next other c user h = elim (Bool-cases (has_role user role)) [
    | inl has ↦ inl (has, rw (h, has))
    | inr lacks ↦ inr (rw (h, lacks))
  ]

  -- Behind LoadUser and RequireRole, a request that comes with no user runs its handler only for the
  -- user of its session, and only if that user has the role; in every other case the answer and all
  -- that happened are the same for any handler in its place, whatever call fails.
  pub require_role-load_user :
      (role : String) (next other : Handler site) (c : Ctx site)
      → c.user ≡ none
      → ((user : User) × (c' : Ctx site) × IsSignedIn site p c user
          × (has_role user role ≡ true)
          × (c'.user ≡ some user)
          × (load_user site p (require_role site role next) c ≡ next c'))
        ⊎ (load_user site p (require_role site role next) c
            ≡ load_user site p (require_role site role other) c)
  require_role-load_user role next other c h =
      rw
        (
          load_user-then (require_role site role next) c,
          load_user-then (require_role site role other) c,
        )
        (elim (load_user-Loads site p (pure tt) c) [
          | kept c' runs same ↦ inr (rw runs (turned_away role next other c' (same ∙ h)))
          | signed_in c' user runs there signed ↦
              rw runs (elim (with_role role next other c' user there) [
                | inl (has, through) ↦ inl (user, c', signed, has, there, through)
                | inr alike ↦ inr alike
              ])
          | failed e c' runs same ↦ inr (rw runs refl)
        ])

  -- A session that was stamped before the password changed: the user's row has another digest. If
  -- the query of the user and the destruction of the session do not fail, LoadUser runs the handler
  -- with no user attached and with a session that holds no user's id.
  pub load_user-stale :
      (next : Handler site) (c : Ctx site) (user : User)
      → nat_eq (site.get_int "user_id" c.session) 0 ≡ false
      → c.store.faults c.store.calls ≡ no_fault
      → keep (λ u. nat_eq u.id (site.get_int "user_id" c.session)) c.store.tables.users ≡ user ∷ []
      → (site.get_string "password_epoch" c.session == password_epoch p user) ≡ false
      → (site.destroy c.session).0 ≡ ok tt
      → (c' : Ctx site) × (load_user site p next c ≡ next c')
        × (c'.user ≡ c.user)
        × (site.get_int "user_id" c'.session ≡ 0)
        × (c'.store.tables ≡ c.store.tables)
  unfolding load_user check_session by_id users_by_id only
  load_user-stale next c user there quiet row stale gone =
      let found =
        find_exactly_one-eq p (users_by_id (site.get_int "user_id" c.session)) c.store (user ∷ [])
          none c.store.tables quiet (rw row refl) in
      let c' : Ctx site = record c {
        store = record c.store { calls = suc c.store.calls };
        session = (site.destroy c.session).1;
      } in
      (
        c',
        rw (there, found, stale, gone) refl,
        refl,
        site.get_int-destroy "user_id" c.session gone,
        refl,
      )
