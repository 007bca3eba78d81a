-- ===== src/Webtest/Server.antt =====
-- webtest/server.go: the app of a test process, whose packages are configured once (sync.Once). As its
-- documentation says, a Do whose function panics counts as done. The answer of jobs.Configure is a
-- parameter; web.Configure returns no error.
use go_bootstrap.Prelude.{
  ℕ, suc, String, ◌≡◌, refl, Bool, true, false, Option, none, some, List, [], ◌∷◌, is_some,
  if◌then◌else◌,
}
use go_bootstrap.Errors.{Result, ok, err}
use go_bootstrap.Jobs.{configure_jobs}

abbrev pub test_base_url : String
test_base_url = "http://test.localhost"

pub record TestProcess : Type 0 where
  -- whether configureWeb is done
  pub done : Bool
  -- how often web.Configure was called
  pub web_configured : ℕ
  -- the jobs client, by the base URL of its worker
  pub jobs_client : Option String

jobs_answered : Result (Unit {0}) × Option String → TestProcess → Option (Unit {0}) × TestProcess
jobs_answered (ok u, client) s = (some tt, record s { jobs_client = client })
jobs_answered (err e, client) s = (none, record s { jobs_client = client })

-- the function of the Once; none is the panic
configure_all : Result (Unit {0}) → TestProcess → Option (Unit {0}) × TestProcess
unfolding jobs_answered
configure_all river s =
    jobs_answered (configure_jobs river test_base_url s.jobs_client)
      (record s { done = true; web_configured = suc s.web_configured })

-- Server
unfoldable pub server : Result (Unit {0}) → TestProcess → Option (Unit {0}) × TestProcess
unfolding configure_all
server river s = if s.done then (some tt, s) else configure_all river s

-- The calls of Server in a process, one after another as the Once puts them: which of them return.
unfoldable pub servers : List (Result (Unit {0})) → TestProcess → List Bool × TestProcess
servers [] s = ([], s)
servers (river ∷ rivers) s =
    let (returned, s') = server river s in
    let (rest, s'') = servers rivers s' in (is_some returned ∷ rest, s'')

abbrev pub fresh : TestProcess
fresh = record { done = false; web_configured = 0; jobs_client = none }

-- that every call returns
abbrev pub all_true : List (Result (Unit {0})) → List Bool
all_true [] = []
all_true (river ∷ rivers) = true ∷ all_true rivers

servers-done :
    (rivers : List (Result (Unit {0}))) (s : TestProcess)
    → s.done ≡ true
    → servers rivers s ≡ (all_true rivers, s)
unfolding servers server
servers-done [] s h = refl
servers-done (river ∷ rivers) s h = simp (server, h, servers-done rivers s h)

-- The packages are configured once: however many tests call Server, and whatever River answers at each
-- call, web.Configure is called once, the jobs client is the one of the first call, and no call but the
-- first can panic, which it does where River refuses.
pub servers-once :
    (river : Result (Unit {0})) (rivers : List (Result (Unit {0})))
    → servers (river ∷ rivers) fresh ≡ (
      is_some (server river fresh).0 ∷ all_true rivers,
      record {
        done = true;
        web_configured = 1;
        jobs_client = (configure_jobs river test_base_url none).1;
      },
    )
unfolding servers server configure_all jobs_answered configure_jobs
servers-once (ok u) rivers =
    rw
      (servers-done rivers
        (record fresh { done = true; web_configured = 1; jobs_client = some test_base_url }) refl)
      refl
servers-once (err e) rivers =
    rw (servers-done rivers (record fresh { done = true; web_configured = 1 }) refl) refl
