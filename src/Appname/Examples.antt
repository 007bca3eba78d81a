-- ===== src/Appname/Examples.antt =====
-- The names of this repository.
use go_bootstrap.Prelude.{◌≡◌, refl, some}
use go_bootstrap.Prelude.Text.{split, trim, map_chars}
use go_bootstrap.Appname.{base, postgres}

repository : base (some "github.com/mbriggs/go-bootstrap") ≡ "go-bootstrap"
unfolding base split trim
repository = refl

database : postgres (λ s. s) (some "github.com/mbriggs/go-bootstrap") ≡ "go_bootstrap"
unfolding postgres base split trim map_chars
database = refl
