-- ===== src/Env/Examples.antt =====
-- The theorems about the configuration at a production environment.
use go_bootstrap.Prelude.{String, ◌≡◌, refl, ◌==◌, if◌then◌else◌}
use go_bootstrap.Errors.{ok}
use go_bootstrap.Env.{load, is_known, configured, IsConfigured, load-IsConfigured}

abbrev demo_os : String → String
demo_os key =
    if key == "APP_ENV"
    then "production"
    else if key == "APP_URL"
    then "https://app.example"
    else if key == "MAIL_FROM"
    then "app@app.example"
    else ""

demo_loads : load demo_os ≡ ok (configured demo_os)
unfolding load is_known
demo_loads = refl

load-IsConfigured_example : IsConfigured demo_os (configured demo_os)
load-IsConfigured_example = load-IsConfigured demo_os (configured demo_os) demo_loads
