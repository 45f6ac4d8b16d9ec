-- ===== src/Lib.antt =====
-- The notifier service of go-service-architecture/scripts/skeleton, a Go program that accepts
-- notification requests over HTTP and MCP, delivers them by email from a job queue, and shows their
-- states to WebSocket clients. Paths below are relative to that folder.
--
-- The parts. A request (internal/infra/httpapi, internal/infra/mcp) checks its input, writes a row
-- of the table `notifications` through the storage interface of internal/domain/store.go, and puts
-- one job on the queue (internal/infra/queue/queue.go). The worker (internal/infra/queue/worker.go)
-- receives the job, moves the row through the lifecycle of internal/domain/statemachine.go, renders
-- and sends the email, writes an audit row for each move and hands each new state to the hub
-- (internal/infra/ws/hub.go). An error makes the queue deliver the job again.
--
-- Which file models what:
--   Prelude      names of the libraries passed on, Boolean tests, lists by native numbers
--   Domain       internal/domain: Types (types.go, email.go), Errors (errors.go and Go's wrapped
--                errors), Machine (statemachine.go), Lifecycle (the specification's diagram)
--   World        the state: tables, queue, messages handed to the hub and to the sender, newest first
--   Environment  what the code calls and the repository does not hold, as a record of functions
--   Database     the SQL statements over the table of internal/infra/sqlite/migrations and
--                internal/infra/postgres/migrations
--   Store        internal/domain/store.go; Store.Contract, what a backend promises
--   Sqlite, Postgres   internal/infra/sqlite/store.go and internal/infra/postgres/store.go
--   Backend      internal/infra/db/open.go; Connection, the Open of both backends
--   Firing       the stateless library over a backend
--   Email        internal/infra/email/template.go and the call of the sender; Console is
--                sender_qa.go, Smtp sender_default.go
--   Queue        internal/infra/queue/queue.go
--   Worker       internal/infra/queue/worker.go; Attempt says what one run is meant to do, Steps,
--                Conclude and Refines that it does it, Retries and Exhausted follow a job to its
--                last reception, Stuck looks at jobs that cannot be sent, Trail at the audit log;
--                Changes is what a run can do with any failures, and Sound the invariant that this
--                keeps
--   Checks       internal/domain/identity.go, validate.go and reset_guard.go
--   Api          internal/infra/httpapi: notify.go, reset.go, list.go, health.go, middleware.go,
--                spa.go and devproxy.go; List.Walk is a client that follows the cursors of List.Cursor; Server is
--                the mux of cmd/daemon/daemon.go with the handlers behind the middleware
--   Mcp          internal/infra/mcp/tools.go; Server is server.go
--   Service      a request together with the job that it queues, runs of many requests and jobs, and
--                the worker of a QA build; Queued is the queue beside the table, Seen the worker
--                before the hub, and Shared a handler between whose statements others run
--   Seed         internal/infra/seed: seed_qa.go with testdata/seed.sql, and seed_default.go
--   Config       internal/config/config.go and the pre-run of internal/cli/root.go
--   Daemon       cmd/daemon: Settings, how flags, file and environment are read; Server, RunServer as
--                the sequence of what it acquires and releases; Server.Protocol, what may follow what
--   Bridge       cmd/mcp-bridge/bridge.go
--   Cli          internal/cli/root.go and the commands of cmd/daemon and cmd/mcp-bridge
--   Hub          internal/infra/ws/hub.go and handler.go; Pumps is the step relation of its goroutines
--   Tests        a concrete environment, and the theorems at concrete inputs
--
-- How the code is read. A method that returns an error is a function from the world to a result and
-- a new world; a Go `error` is a sentinel, a text or a wrapped error, compared as `errors.Is` does. A
-- handler runs alone, except in Service.Shared, where others run between its statements, and in
-- Hub.Pumps, where the goroutines of the hub are interleaved. Every statement can fail at the
-- driver's will, and then it changes nothing; the clock, UUIDs, JSON, address parsing, templates,
-- base64 and the sender are functions of the environment. The stateless library is the function
-- `fire`, with its documented behaviour as the hypothesis `IsStateless`. Numbers are natural
-- numbers: statuses below zero and negative limits do not occur in the tables that the code writes,
-- and a negative limit in a request stands with the missing ones. A time is a number of nanoseconds,
-- and RFC 3339 keeps its seconds. Calls of slog are left out. Ids are ordered by their bytes, as SQLite
-- does; a PostgreSQL database with a collation other than C can order two ids otherwise.
--
-- What the outer parts call is a record of functions of their own: the mux of net/http, and, each
-- answering with an error or none, the mail library, koanf, the file system, the HTTP client and the
-- parts that the daemon starts.
-- `strings.ToLower` and `strings.TrimSpace` are such functions too, since they depend on Unicode's
-- tables. A context is the error that it ends with within a given time, if it does. Ports and
-- timeouts are not negative.
--
-- Fuel. `Worker.Retries.redeliver` takes the greatest number of receptions. The retry limit less the
-- retry count, plus one, is enough, and the queue's `max_receive` is more than that for a new row.
-- `Api.List.Walk.walk` takes the greatest number of requests; as many as there are rows, and at least
-- one, are enough.
--
-- Not modelled: the embedded files, the goroutines of the HTTP server and of the job runner, what
-- goqite does with its messages, migrations, which goose runs, and the frontend in web. The upgrade
-- of a WebSocket connection and its reads and writes are calls of a library; a step of Hub.Pumps lets
-- each of them succeed or fail.
pub mod Prelude
pub mod Domain
pub mod World
pub mod Environment
pub mod Database
pub mod Store
pub mod Sqlite
pub mod Postgres
pub mod Backend
pub mod Bridge
pub mod Cli
pub mod Config
pub mod Daemon
pub mod Firing
pub mod Email
pub mod Queue
pub mod Worker
pub mod Checks
pub mod Api
pub mod Mcp
pub mod Service
pub mod Seed
pub mod Hub
mod Tests
