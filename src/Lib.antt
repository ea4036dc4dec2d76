-- ===== src/Lib.antt =====
-- The control plane of forge-platform, as definitions that can be run and theorems about them.
--
-- The program. Two modules, catalog (internal/modules/catalog) and tenant
-- (internal/modules/tenant), keep aggregates: a domain object checks a change and records events, a
-- command loads it, changes it, saves it and appends its events to an outbox in one transaction.
-- The relay (internal/relay) publishes the outbox to a stream. A Temporal workflow
-- (internal/provisioning) sets up what a tenant needs in other systems. An operator
-- (internal/controller) turns Application objects into Kubernetes objects and reports their status.
-- Errors are *apperr.Error values (internal/platform/apperr), which internal/platform/httpx turns
-- into responses.
--
-- The files.
--   Base: helpers; Base/Text is strings.TrimSpace, Base/Label the DNS-1123 pattern and its matcher,
--     Base/Words Go's fixed-width integers as bit patterns, Base/Decimal strconv on them, Base/Sorting
--     ORDER BY as an insertion sort, Base/Paging what a keyset query returns.
--   Platform: what comes from outside, as the record Env: package uuid, the clock, fresh identifiers,
--     and how each call of the database ends (done, failed without effect, or carried out with the
--     answer lost). Everything is a function of a counter of calls.
--   Apperr: internal/platform/apperr/apperr.go (New, WithCause, As, HTTPStatus) and the body that Error
--     of internal/platform/httpx/response.go writes; Http: requests and responses as records, JSON,
--     Error and Decode of that file, ifMatch and setETag; Http/Auth: internal/platform/httpx/auth.go.
--   Config: internal/platform/config/config.go (Load, validate).
--   Migrations: internal/platform/postgres/migrate.go (Migrate, parseVersion); which of the recorded
--     versions reach its loop is a parameter, and the files can be read.
--   Db: the tables of migrations/*.up.sql as lists of rows, statements as functions on them, actions
--     with errors; Db/Tx is Store.Execute of adapters/postgres/store.go.
--   Catalog/Values, Catalog/Service: internal/modules/catalog/domain; Catalog/Repository:
--     adapters/postgres (Insert, Update, recordOwnership, FindByID, FindByTenantAndName, Append);
--     Catalog/Commands: app/commands.go; Catalog/Listing: List and its cursors, with app/queries.go;
--     Catalog/Handlers: api/handlers.go and api/dto.go, Catalog/Handlers/Filters its listing.
--   Tenant/Values, Tenant/Account, Tenant/Repository, Tenant/Commands, Tenant/Listing,
--     Tenant/Handlers: the same parts of internal/modules/tenant.
--   Idempotency: internal/platform/idempotency/idempotency.go (Lookup, Save).
--   Provisioning: ProvisionTenantWorkflow with its saga, and SimulatedProvisioner.
--   Relay: DrainOnce, ClaimBatch, subjectFor, New and JetStreamPublisher.Publish.
--   Controller: desiredDeployment, desiredService and what they use; Controller/Status: updateStatus
--     and setCondition; Controller/Observability: desiredObservability; Controller/Reconcile: Reconcile.
--   Tests: concrete worlds and a codec of cursors, and one example for each result.
--
-- The state. A command is a function on World: the tables, the counter of calls and the start of
-- the transaction. A handler is a function from a request and a World to a response and a World. A
-- workflow is a function on Run: the other systems, the counter and the trace of activities. The
-- relay works on Stream: the outbox, the messages that the stream took, the counter. The operator
-- works on Store: the Application as the API server has it, and the counter; what other clients do
-- to it between two calls is a parameter, and so is what the cache of the manager's client then answers
-- a read with, which may be older.
--
-- Bounds and fuel. An int64 or int is a natural number below 2^64, an int32 one below 2^32, with
-- wrap-around written out. DrainOnce is a loop on fuel: a turn for each row that waits and one more
-- are enough. The retry on conflict makes five attempts, which is what DefaultRetry asks for. A
-- client that follows the cursors of a listing makes at most a given number of calls: one more than
-- the table has rows is enough.
--
-- What is abstracted. Texts are valid UTF-8 without NUL. Instants are numbers of nanoseconds; a
-- TIMESTAMPTZ column holds one rounded down to whole microseconds (column_time). Statements of one
-- transaction run without others in between; rows that another transaction has locked are a
-- parameter of the relay. The payload of an outbox row is the envelope before it is printed as
-- JSON, and its aggregate's id the text that is sent for it. An error value that the code compares
-- by identity is told by its code. A cursor as JSON in base64, instants as text, the casts of the
-- server to timestamptz and uuid and its order on texts are a parameter (Codec), with the
-- documented laws of it as IsCodec; so are the decoder of JSON bodies, the cast to jsonb, which
-- refuses a text or prints it anew, SHA-256, JSON Web Tokens, floating-point numbers and the parser
-- of durations. The text that the query builders make is not modelled, only what the SELECT
-- returns. A response body is the value that is encoded. Temporal is the outcome of each activity
-- after its retries; the server-side apply of Kubernetes is not modelled, only what is applied.
--
-- What is not modelled: the texts of the query builders, the rate limiter and the middleware, the
-- readers of the provisioning and application modules, the programs under cmd, the wrappers of
-- third-party clients and the generated code.
pub mod Base
pub mod Platform
pub mod Apperr
pub mod Http
pub mod Config
pub mod Db
pub mod Catalog
pub mod Tenant
pub mod Provisioning
pub mod Relay
pub mod Controller
pub mod Idempotency
pub mod Migrations
mod Tests
