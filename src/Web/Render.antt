-- ===== src/Web/Render.antt =====
-- web/render.go. The buffer is not modelled: a page either renders whole or not at all.
use go_bootstrap.Prelude.{String, none, some, if◌then◌else◌}
use go_bootstrap.Prelude.Text.{◌+++◌, is_empty}
use go_bootstrap.Errors.{wrap}
use go_bootstrap.Exec.{fail, ◌>>=◌}
use go_bootstrap.Web.Context.{LayoutData, Page, html, Site, Handler, respond, asks}
use go_bootstrap.Web.Flash.{take_flash}

module _ (site : Site) where
  unfoldable pub write_page : LayoutData → Page → Handler site
  write_page layout body = elim (site.render layout body) [
    | none ↦ respond site (html 200 layout body)
    | some e ↦ fail (wrap ("rendering " +++ layout.title) e)
  ]

  unfoldable pub render_page : String → Page → Handler site
  unfolding write_page
  render_page title body = do
    user ← asks site (λ c. c.user)
    flash ← take_flash site
    write_page
        (record { title = if is_empty title then "app" else title; user = user; flash = flash })
        body
