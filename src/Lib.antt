-- ===== src/Lib.antt =====
-- The premium entitlement reconciler: three channels (app store webhooks, carrier polling and
-- marketplace revocations) write one table of entitlements, an audit log records every change, a
-- sweep expires what has lapsed, and queries resolve the sources of a user into one answer.
--
-- The program and its model:
--   internal/domain                        Domain: payloads, responses, errors, validation
--   internal/infrastructure/postgres/gen   Postgres/Models: the rows and the tables;
--                                          Postgres/Queries: each SQL query as a function on them
--   internal/infrastructure/postgres       Postgres/Types and Postgres/Client: the methods of
--                                          `Client`, UpsertEntitlement in Client/Upsert, the sweep
--                                          and the claims in Client/Entitlements
--   internal/application                   Application: one module for each service
--   internal/infrastructure/worker         Worker: one cycle of each background job, and in
--                                          Worker/Schedule the loop that runs it on each tick
--   internal/infrastructure/http           Http: a module for each handler, and Http/Router
--   internal/infrastructure/carrier        Carrier: the client of the carrier's plan endpoint
--   internal/config                        Config: the log level
-- Names are the source's, in snake case: `ProcessStoreWebhook` is `process_store_webhook`.
-- System puts the parts together: the histories of the transactions that the services and the jobs
-- run, in any order and with any failure.
--
-- Postgres/Session stands for database/sql, context and time. An action runs in an environment,
-- which decides for every numbered call whether it fails, what the clocks of the process and of the
-- database show, and which rows other transactions hold locked; and on a world, which holds the
-- committed tables or the working copy of the open transaction. A transaction that meets an error
-- leaves the tables as they were; its own statements are not interleaved with those of others, but
-- for UpsertEntitlement, whose call with the commits of others after its read is
-- Client/Upsert/Interleaved.
-- `AddDate(0, 1, 0)` and `Format("2006-01")`, which depend on the process's time zone, are
-- functions of the environment. Base and Clock hold the shared lists, integers and instants, and
-- Base/Decimal is strconv's ParseInt in base 10.
--
-- A table is a list of rows, the newest in front; the CHECK constraints and unique indexes of
-- migrations/*.up.sql are written out in the queries. An instant counts nanoseconds from Go's zero
-- time, and a TIMESTAMPTZ column keeps whole microseconds; the range in which PostgreSQL accepts
-- one is not checked. UnixMicro wraps around in its int64. A BIGSERIAL counter is rolled back with
-- its transaction, where PostgreSQL leaves a gap. The int32 counts of a batch are natural numbers
-- where the batch bounds them; SendDueNotifications keeps its conversion.
--
-- A handler takes a request (what chi has read from the path, the parameters of the query, the
-- bytes of the body or the failure to read them) and gives the answer and the tables. A string is
-- the list of its code points, as ranging over it decodes them.
--
-- Theorems stand below the code that they are about: Session has the rules of reasoning (what an
-- action keeps, implements, rolls back, and when it succeeds), Client/Upsert its effect, its
-- refinement of Spec/Register and its convergence, Client/Entitlements/Sweep the account of the
-- sweep and Client/Entitlements/Backlog what a batch that is not full leaves, StoreWebhook its effect, atomicity and redelivery, EntitlementQuery/Priority the choice
-- among sources, and the modules Status of Http the meaning of status codes. Invariant/Preserves is
-- the interface between an invariant of the tables and the services: an invariant that the six
-- operations of the client keep is kept by each service. Audit fills it for the truth of the audit
-- log, Invariant/Keyed, Daily, Sources and Recorded for the others; Audit/Fates is what a sweep does
-- to each row and its audit trail. Tests has runs and an instance
-- of each theorem.
--
-- The loops of the workers run on fuel. A cycle that sends notifications needs more than there are
-- unsent ones, and a sweep cycle more than there are active rows, since every full batch takes
-- some off. A polling cycle needs more than there are stale carrier rows, and that no row that it
-- has polled goes stale again before its end.
--
-- Not modelled: the entry points (cmd), which read the environment and start and stop servers and
-- goroutines; the plumbing of the generated code; logging. Parameters stand for encoding/json,
-- chi's choice among the routes, net/url, net/http, math/rand and strings.ToLower.
pub mod Base
pub mod Clock
pub mod Domain
pub mod Postgres
pub mod Application
pub mod Spec
pub mod Audit
pub mod Worker
pub mod Http
pub mod Invariant
pub mod Config
pub mod Carrier
pub mod System
pub mod Tests
