-- ===== src/Lib.antt =====
-- A model of go-bootstrap, a web application with accounts, sessions, a mail job and Postgres.
--
-- The parts and how they interact. A request passes the same-origin gate and LoadUser (package web)
-- to a handler, which calls package auth through package db and changes the tables; a reset request
-- inserts a job, whose worker (package jobs) issues a token and hands a message to package mailer.
-- Packages env and logging configure the process, and server.go starts and ends it. The commands, the
-- generators and the analyzers stand beside it: conngen and modelgen write code from the packages and
-- from the schema, and the analyzers hold the code to the rules that the transactions rely on.
--
-- The files, and the code that each models.
--   Prelude        shared names, Boolean tests on the native numbers, lists, texts
--   Errors, Exec   Go's errors as a tree of wraps with a cause, and code that changes a state and may
--                  fail: what was written before a failure stays written
--   Store          the tables of migrations/, the clocks, the randomness and the outbox, and for every
--                  call of the driver whether and how it fails (`Fault`)
--   Platform       pgx, argon2id, sha256 and crypto/rand as parameters, with documented laws
--   Db             db/db.go in Db/Pool, db/query.go (FindAllTx is `find_all`, FindOneTx `find_one`,
--                  FindExactlyOneTx `find_exactly_one`), db/mutate.go, db/tx.go (InTx is `in_tx`) and
--                  db/rowmap.go in Db/RowMap; Db/Queries and Db/Transactions prove what they do
--   Auth/Users     auth/users.go and auth/users.gen.go: CreateTx is `create`, AuthenticateTx is
--                  `authenticate`; Auth/Users/Slots has the channel hashSlots under every interleaving
--   Auth/Users/Factory   auth/factory.go, with makeSeq in its state
--   Auth/Reset     auth/reset.go and auth/password_reset_tokens.gen.go
--   Mailer, Jobs   mailer/mailer.go, mailer/ses.go, jobs/jobs.go, jobs/errors.go and
--                  jobs/password_reset_email.go
--   Web/Context    what a handler works on; scs, net/url, echo's status codes and templ are the
--                  parameters of `Site`
--   Web/Throttle, Web/Flash, Web/Render, Web/Secure, Web/Access (web/auth.go), Web/Handlers
--   (web/handlers_auth.go, ParseForm), Web/Failure (web/errors.go, web/apierror, web/forms.go);
--                  Web/Throttle/Overshoot has the requests for one key that run at once
--   Web/Sessions   Configure of web/sessions.go
--   Web/Router     web/router.go and web/handlers_design.go; `serve` is the chain of a request, and
--                  `serve_traced` of Web/Router/Chain the same with all its instruments
--   Web/Tracing    web/tracing.go, with requestIDOnSpan of web/router.go
--   Web/Answers, and the modules Answering: that a handler that returns no error has answered
--   Exec/Keeping, and the modules Keeping: that code keeps a view of its state, here who the users are
--   Env            env/env.go
--   Logging        logging/config.go and logging/logger_manager.go; Logging/Global is logging/logging.go,
--                  and Logging/Trace is logging/trace.go
--   Telemetry      telemetry/telemetry.go and telemetry/sentry.go
--   Conngen        cmd/conngen/main.go over an abstract syntax tree; Conngen/Files has its main and the
--                  files that it writes and removes
--   Modelgen       cmd/modelgen/main.go: goType, fieldName and receiverName; Modelgen/Emitting has render,
--                  generate and the loop of main
--   Server         server.go: run is `run`, with its defers as `closing`; Server/Shutdown is the end, as a
--                  step relation of main, the goroutine that waits for a signal, and the requests
--   Analyzers      a syntax tree with ast.Inspect; Analyzers/Rules has the packages connconfine, jobconfine
--                  and txparam of analyzers/
--   Fixture        fixture/fixture.go and fixture/sequence.go
--   Partition, Appname, Flows   partition/partition.go, appname/appname.go, flows/flows.go; Flows/Welcome
--                  is the flow of flows/welcome.go
--   Webtest        webtest/webtest.go: the loop that clones the template, and, in Webtest/Process, Main and
--                  run; Webtest/Client, Webtest/Request and Webtest/Server are the other files of webtest/
--   Commands       cmd/createuser/main.go and cmd/migrate/main.go
--   files named Examples or Demo hold concrete parameters and runs of the theorems
--
-- A statement of SQL is a function of the time and the tables, written out from its text, with the
-- unique indexes and the foreign keys of the migrations. A function of Go with several returns is a
-- chain of binds, and its error is the `err` of `Result`. Loops run over lists, but for two: Next of a
-- Sequence counts its thousand attempts down, as the code does, and createTestDB has fuel for its
-- twenty-one attempts, which is proved to be enough.
--
-- Bounds. Times are microseconds and ids are natural numbers without a bound; Postgres' bigint ends
-- far above what an identity column reaches. Texts are sequences of code points.
--
-- Not modelled: the loading and the committing of the session by scs around the routes
-- (Sessions.LoadAndSave), log lines but for the request log, the templates, ForceColor and the package dev, the
-- generated variants on the pool (each is its Tx function), what the libraries do (OpenTelemetry,
-- Sentry, pgx, River, Inngest, echo, scs), the recovery of panics, and the isolation of transactions
-- that run at once: but for the hash slots and the throttle, which are step relations, each call of a
-- handler is taken to run alone on the tables.
pub mod Prelude
pub mod Errors
pub mod Exec
pub mod Store
pub mod Platform
pub mod Db
pub mod Auth
pub mod Mailer
pub mod Jobs
pub mod Web
pub mod Env
pub mod Logging
pub mod Conngen
pub mod Modelgen
pub mod Server
pub mod Analyzers
pub mod Fixture
pub mod Partition
pub mod Appname
pub mod Webtest
pub mod Commands
pub mod Flows
pub mod Telemetry
