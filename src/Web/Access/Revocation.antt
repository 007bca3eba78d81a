-- ===== src/Web/Access/Revocation.antt =====
-- auth/reset.go and LoadUser of web/auth.go together: what becomes of a session that was stamped in
-- front of a reset.
use go_bootstrap.Prelude.{
  String, ◌≡◌, ◌≢◌, ◌⊎◌, refl, sym, ap, ◌∙◌, none, [], ◌∷◌, any-keep, keep, keep-map_if, nat_eq,
  nat_eq_iff, inl, inr,
}
use go_bootstrap.Exec.{pure}
use go_bootstrap.Errors.{ok}
use go_bootstrap.Store.{User, Store, Tables}
use go_bootstrap.Platform.{Platform}
use go_bootstrap.Auth.Users.{password_epoch}
use go_bootstrap.Auth.Reset.{reset_password}
use go_bootstrap.Auth.Reset.Retiring.{IsReset, reset_password-IsReset}
use go_bootstrap.Web.Context.{Site, Ctx, Handler}
use go_bootstrap.Web.Access.{load_user}
use go_bootstrap.Web.Access.Guards.{kept, signed_in, failed, load_user-Loads}
use go_bootstrap.Web.Access.Roles.{load_user-then}

module _ (p : Platform) (token password hash : String) (s s' : Store) (user old : User) where
  -- The changed row that a reset returns has the hash of the new password.
  new-hash :
      IsReset p token password s user s'
      → keep (λ u. nat_eq u.id user.id) s.tables.users ≡ old ∷ []
      → p.create_hash s.draws password ≡ ok hash
      → user.password_hash ≡ hash
  new-hash reset row made =
      let chosen = λ (u : User). nat_eq u.id reset.row.user_id in
      let own : user.id ≡ reset.row.user_id =
        (nat_eq_iff user.id reset.row.user_id).0
          (any-keep chosen user s'.tables.users [] reset.returned) in
      let before : keep chosen s.tables.users ≡ old ∷ [] = rw⁻¹ own row in
      let behind : keep chosen s'.tables.users
          ≡ record old { password_hash = reset.hash; updated_at = s.db_now } ∷ [] =
        ap (keep chosen) reset.users
        ∙ keep-map_if chosen chosen
            (λ u. record u { password_hash = reset.hash; updated_at = s.db_now }) old s.tables.users
            (λ u. refl) (any-keep chosen old s.tables.users [] before) before in
      let same : user ≡ record old { password_hash = reset.hash; updated_at = s.db_now } =
        cc (reset.returned, behind) in
      ap (λ (u : User). u.password_hash) same ∙ cc (reset.made, made)

module _ (site : Site) (p : Platform) where
  -- A reset that succeeds ends the sessions that were stamped before it. On the tables that it leaves, a
  -- request with no user attached and with a session that holds the id of the user and the digest of the
  -- hash that the user's row had before, where the hash of the new password has another digest, is
  -- nowhere taken for the user's: whatever call fails, LoadUser runs the handler behind it with no user
  -- attached, or it does not run it, and all that happens is the same for any other handler.
  pub load_user-reset_password :
      (token password hash : String) (s : Store) (user old : User) (next other : Handler site)
      (c : Ctx site)
      → (reset_password p token password s).0 ≡ ok user
      → keep (λ u. nat_eq u.id user.id) s.tables.users ≡ old ∷ []
      → p.create_hash s.draws password ≡ ok hash
      → p.sha256_hex old.password_hash ≢ p.sha256_hex hash
      → c.store.tables ≡ (reset_password p token password s).1.tables
      → c.user ≡ none
      → site.get_int "user_id" c.session ≡ user.id
      → site.get_string "password_epoch" c.session ≡ p.sha256_hex old.password_hash
      → ((c' : Ctx site) × (load_user site p next c ≡ next c') × (c'.user ≡ none))
        ⊎ (load_user site p next c ≡ load_user site p other c)
  unfolding password_epoch
  load_user-reset_password token password hash s user old next other c done row made fresh left
        nobody id epoch =
      let s' = (reset_password p token password s).1 in
      let reset = (reset_password-IsReset p token password s user done).1 in
      let own : user.id ≡ reset.row.user_id =
        (nat_eq_iff user.id reset.row.user_id).0
          (any-keep (λ u. nat_eq u.id reset.row.user_id) user s'.tables.users [] reset.returned) in
      let hashed = new-hash p token password hash s s' user old reset row made in
      rw (load_user-then site p next c, load_user-then site p other c)
        (elim (load_user-Loads site p (pure tt) c) [
          | kept c' runs same ↦ inl (c', rw runs refl, same ∙ nobody)
          | signed_in c' found runs there signed ↦
              let at_id : keep (λ u. nat_eq u.id (site.get_int "user_id" c.session)) s'.tables.users
                  ≡ found ∷ [] =
                ap
                  (λ (t : Tables).
                    keep (λ u. nat_eq u.id (site.get_int "user_id" c.session)) t.users)
                  (sym left)
                ∙ signed.row in
              let found_row : keep (λ u. nat_eq u.id reset.row.user_id) s'.tables.users
                  ≡ found ∷ [] =
                rw⁻¹ (id ∙ own) at_id in
              let same : found ≡ user = cc (found_row, reset.returned) in
              let same_hash : found.password_hash ≡ hash =
                ap (λ (u : User). u.password_hash) same ∙ hashed in
              absurd (fresh (sym epoch ∙ (signed.epoch ∙ ap p.sha256_hex same_hash)))
          | failed e c' runs same ↦ inr (rw runs refl)
        ])
