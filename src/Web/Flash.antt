-- ===== src/Web/Flash.antt =====
-- web/flash.go.
pub mod OneShot
use go_bootstrap.Prelude.{String, Bool, Option, none, some, ◌==◌, if◌then◌else◌}
use go_bootstrap.Prelude.Text.{is_empty}
use go_bootstrap.Errors.{ok}
use go_bootstrap.Exec.{Exec, pure, ◌>>=◌, ◌>>◌}
use go_bootstrap.Web.Context.{Flash, Site, Ctx, Handler, on_session, pop_string}

flash_of : String → String → String → Option Flash
flash_of kind msg key =
    if is_empty msg
    then none
    else some (record { kind = if is_empty kind then "ok" else kind; message = msg; key = key })

module _ (site : Site) where
  unfoldable pub put_flash_key : String → Handler site
  put_flash_key key =
      if is_empty key
      then on_session site (site.remove "flash_key")
      else on_session site (site.put_string "flash_key" key)

  unfoldable pub set_keyed_flash : String → String → String → Handler site
  unfolding put_flash_key
  set_keyed_flash kind key msg = do
    on_session site (site.put_string "flash_kind" kind)
    on_session site (site.put_string "flash_msg" msg)
    put_flash_key key

  unfoldable pub set_flash : String → String → Handler site
  unfolding set_keyed_flash
  set_flash kind msg = set_keyed_flash kind "" msg

  unfoldable pub take_flash : Exec (Ctx site) (Option Flash)
  unfolding flash_of
  take_flash = do
    kind ← pop_string site "flash_kind"
    msg ← pop_string site "flash_msg"
    key ← pop_string site "flash_key"
    pure (flash_of kind msg key)
