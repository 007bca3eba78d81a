-- ===== src/Web/Flash/OneShot.antt =====
-- A flash is shown once.

use go_bootstrap.Prelude.{
  String, ◌≡◌, refl, sym, true, false, none, some, if◌then◌else◌, Bool-cases, inl, inr,
}
use go_bootstrap.Prelude.Text.{is_empty}
use go_bootstrap.Errors.{ok}
use go_bootstrap.Web.Context.{Site, Ctx}
use go_bootstrap.Web.Flash.{flash_of, set_keyed_flash, take_flash}

eq_nil : (s : String) → is_empty s ≡ true → s ≡ ""
eq_nil String.[] h = refl
eq_nil (String.◌∷◌ c s) h = cc

module _ (site : Site) (kind key msg : String) (c : Ctx site) where
  -- what a session holds behind a flash
  abbrev flashed : site.Session
  flashed = (set_keyed_flash site kind key msg c).1.session

  get_flash_kind : site.get_string "flash_kind" flashed ≡ kind
  unfolding set_keyed_flash
  get_flash_kind = elim (Bool-cases (is_empty key)) [
    | inl e ↦ rw (e, flashed) (simp (site.get_string-put_string, site.get_string-remove))
    | inr e ↦ rw (e, flashed) (simp site.get_string-put_string)
  ]

  get_flash_msg : site.get_string "flash_msg" flashed ≡ msg
  unfolding set_keyed_flash
  get_flash_msg = elim (Bool-cases (is_empty key)) [
    | inl e ↦ rw (e, flashed) (simp (site.get_string-put_string, site.get_string-remove))
    | inr e ↦ rw (e, flashed) (simp (site.get_string-put_string))
  ]

  get_flash_key : site.get_string "flash_key" flashed ≡ key
  unfolding set_keyed_flash
  get_flash_key = elim (Bool-cases (is_empty key)) [
    | inl e ↦ rw (e, flashed) (simp (site.get_string-remove) (sym (eq_nil key e)))
    | inr e ↦ rw (e, flashed) (simp (site.get_string-put_string))
  ]

  -- A message that is not empty is taken as it was set, under the kind "ok" if it had none; the next
  -- taking finds nothing.
  pub take_flash-set_keyed_flash :
      is_empty msg ≡ false
      → ((take_flash site (set_keyed_flash site kind key msg c).1).0
          ≡ ok (
              some
                (record { kind = if is_empty kind then "ok" else kind; message = msg; key = key })))
        × ((take_flash site (take_flash site (set_keyed_flash site kind key msg c).1).1).0
            ≡ ok none)
  unfolding take_flash
  take_flash-set_keyed_flash h = (
    simp (site.get_string-remove, get_flash_kind, get_flash_msg, get_flash_key) (rw (h, flash_of)),
    simp site.get_string-remove,
  )
