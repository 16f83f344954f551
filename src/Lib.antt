-- ===== src/Lib.antt =====
-- Verification of the Online Coding Judge: its API, its store and its judging core.
--
-- The API (internal/api) authenticates users and serves problems and submissions from PostgreSQL
-- (internal/database/store.go). A submission is stored with an outbox event. The API process
-- publishes due events to a Redis stream (internal/outbox/publisher.go); worker processes receive them, claim the
-- submission, evaluate it in a sandbox, store the verdict and acknowledge the delivery
-- (internal/judge/engine.go over internal/database/judging.go). The states a submission passes are
-- those of internal/submissions/state.go, and the problems it is judged by those of
-- internal/problems/problem.go.
--
-- The files:
--   Prelude, Errors: shared helpers; the errors that cross packages, and replies.
--   Problems (Limits, Visibility): `Validate` and `Public` of internal/problems/problem.go.
--   Submissions (Lifecycle): `CanTransition` of internal/submissions/state.go.
--   Judge/Types: `Job`, `Outcome`, `Result`, `Delivery` of internal/judge/engine.go.
--   Judge/Compare (Fields): `Compare`, with `strings.Fields` on UTF-8 bytes.
--   Judge/Output (Accounting): internal/judge/output.go; the lock makes each write one step, and
--     the cancellation is counted.
--   Judge/Launch (Chunk, Marker): `launchClock` of internal/judge/docker.go.
--   Judge/Docker (Strings (Decimal), Host, Policy, Container, Execute, Session): the sandbox of
--     internal/judge/docker.go over a machine, `Host`, whose docker client, files, random source and
--     tar format are parameters. Keeping, Pending, Quiet, Creation, Cleanup,
--     Upkeep, Removal, Evaluation: its containers. Budget, Execution, Confinement: its outcomes and
--     its counters.
--   Judge/Engine (Steps, Trace, Contract, Agreement, Results, Frame): `Evaluate` over any sandbox.
--   Judge/Worker (Monitor, Beating, Protocol): `Handle`, over any database, queue and sandbox; the
--     heartbeat goroutine is interleaved with the calls of the evaluation as a schedule says.
--   Judge/Retry: `RetryDelay`. Judge/Pool (Outcome): `RunPool` as steps of its goroutines.
--   Database/Table, Tables, Transaction, Queries: rows, SQL on them, and transactions whose
--     statements and commit may fail. Database/Claim, Attempts: `Claim`, `Transition`, `Renew`,
--     `Finish`, `Retry`, `Fail` of internal/database/judging.go. Database/Linked, Invariant,
--     Preservation, Claiming, History, Fencing, Terminal: what they keep.
--     Database/Events (Leases, Progress, Restoring): `ClaimOutbox`, `MarkPublished`,
--     `ReconcileOutbox`; Guarding, Turns, Exclusion, Publishing: any sequence of them.
--   Platform (Tables, Authoring, Submitting): `loadProblem`, `SaveProblem`, `CreateSubmission` and
--     `History` of internal/database/store.go. Stored, RoundTrip, Accepting, Ownership, Listing: what
--     they keep and give. Lifetime: the API, the publishers and the workers over one database.
--   Auth: internal/auth/auth.go. Api (Responses, Accounts, Handlers, Routes): the handlers, guards
--     and routes of internal/api/api.go; Streaming (Delivery): its event stream, poll by poll.
--     Frames, Access, Disclosure, Sessions, Logout: who may do and see what.
--   Outbox (Calls): `PublishBatch`. RateLimit (Window): `rateLimit` of internal/api/limits.go over
--     `Allow` of internal/queue/redis.go, with the commands of Redis as parameters.
--   Tests: the theorems at concrete inputs.
--
-- Integers that the program compares with bounds are `ℤ` of Prelude; sizes, counts, times in
-- nanoseconds and identifiers are natural numbers. None of them is near the range of an `int64`:
-- byte counts are bounded by the limits of `Validate` and by the output budget, attempts by their
-- column. The loops go over lists; only the decimal digits of a number run on fuel, twenty, more than
-- a number of 64 bits has.
--
-- Row locks make a transaction one step; its BEGIN, statements and COMMIT are answered as `Net`
-- says, and a failed COMMIT may have taken effect. The identifiers that the database generates are
-- arguments, and an insertion under a taken one fails. In the model of `Handle` a tick of the
-- heartbeat falls between the calls of the evaluation and not into one, which the row locks make
-- the same for the store.
--
-- Not modelled: /health and /ready of the API; the Redis commands but for the rate
-- limit; the consumer loop and the wiring of the processes, with their signals and health servers. The
-- packages gin, encoding/json, net/mail, bcrypt, crypto and archive/tar, PostgreSQL's text encoding and
-- its uuid format are not under verification: what the code gets from them is an argument. A load of a
-- problem outside a transaction counts as one step. The time limits of `control` and `close` show in
-- what the docker client replies.
pub mod Prelude
pub mod Errors
pub mod Problems
pub mod Submissions
pub mod Judge
pub mod Database
pub mod Outbox
pub mod Tests
pub mod Api
pub mod Auth
pub mod Platform
pub mod RateLimit
