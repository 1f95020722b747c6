-- ===== src/Lib.antt =====
-- Verification of chargeback-iq, the service that keeps chargeback disputes, their deadlines, their
-- audit trail and the card networks' monitoring ratios (src/, JavaScript on PostgreSQL).
--
-- The program has pure rules (src/domain), statements (src/repositories), services that combine both
-- in transactions (src/services), and routes over them. The library follows those parts:
--   Errors          src/lib/errors.js: the errors with their status and code, as values
--   Lifecycle       src/domain/lifecycle.js: findTransition, canTransition, nextStatuses, isTerminal,
--                   assertTransition
--   Deadlines       src/domain/deadlines.js: selectDeadlineRule, computeRespondBy, daysRemaining,
--                   deadlineState
--   Ratios          src/domain/ratios.js: toBasisPoints, evaluateEcp, evaluateVamp
--   Signature       src/lib/signature.js: safeCompare, computeSignature, verifySignature
--   Objects         the names that a JavaScript object inherits, which a lookup by a text may find
--   Schema          migrations/: the rows of the tables and the state of the database
--   Tx              src/db/tx.js: a computation on the database that returns or throws, do blocks for
--                   awaited statements, withTransaction
--   Repositories    src/repositories: each statement as a function of the state, with the
--                   constraints of the tables that it meets
--   Services        src/services/disputeService.js (DisputeService, Evidence, Sweep),
--                   webhookService.js (WebhookService) and complianceService.js (Compliance),
--                   the sequences of their calls (Calls), and calls at the same time (Interleaved)
--   Seeds           migrations/003_seed_reference_data.sql: transitions, statuses, deadline rules
--   Routes          src/routes and src/middleware: each handler from a request to a response
--                   (Disputes, Webhooks, Reference), what the handlers and services give together, and
--                   the whole of src/app.js (App)
--   Demo            scripts/seed.js: the wipe of the demo data (Wipe), the inserts (Rows), the cases
--                   (Cases) and the run (Script)
--   Migrate         src/db/migrate.js: a run of the migrations
--   Server          src/server.js: the process up to its exit, with closePool of src/db/pool.js
--   Logger          src/lib/logger.js: the lines that are printed
--   Audit           what holds along every sequence of service calls: the event log (Runs), the
--                   statuses (Cases), the abstract book of cases that they refine (Book), and
--                   the event log along interleaved calls (Interleaved)
--   Tests           a small database and each theorem at a concrete call
-- Functions keep their names in snake case (openDispute is open_dispute). An anonymous body that is
-- passed to withTransaction is the definition whose name ends in _body.
--
-- The state is the record Db. A statement is a function from Db to a result and a new Db, or to a
-- thrown value; a rollback restores the tables and keeps the number of UUIDs and event sequence
-- numbers drawn, as PostgreSQL does. What a call meets outside (the clocks, the UUIDs, Date parsing,
-- the driver's messages) is the record Env. HMAC-SHA256 and Number() are the record
-- Signature.Runtime; the rounded quotient of the ratios is Ratios.Rounding, with the bounds that
-- IEEE double arithmetic gives for numerators below 2^32; the months of the UTC calendar, and the days
-- of the local time that a DATE column keeps, are Repositories.Volumes.Calendar. What the schemas of zod accept is Routes.Disputes.Schemas, JSON.parse
-- and toUpperCase are Routes.Webhooks.Platform, and the file system, SHA-256 and the execution of a
-- migration are Migrate.Surroundings.
--
-- Times are milliseconds from the earliest JavaScript Date, so that they are natural numbers. Every
-- loop of the source runs over a list, so that the definitions recurse on it. Fuel is used only to
-- write a number in decimal (Demo.Rows), which has no more digits than the number plus one.
--
-- A call is one step of the model, but for Services.Interleaved, where the transactions of changeStatus
-- and addEvidence take their steps in any order; there the row lock is a hypothesis of the steps. What
-- Express, its body parsers and the rate limiter make of a request is part of Routes.App.HttpRequest,
-- and lower() of the database is a parameter of Demo.Script.run, whose calls all read one clock.
--
-- Not modelled: failures of the connection; the widths and ranges of columns; values of a webhook's JSON
-- body that are neither texts nor integers; the calls of the logger; the parsing of requests by the web
-- framework and by zod, and the headers; the configuration of the connection pool.
pub mod Prelude
pub mod Errors
pub mod Lifecycle
pub mod Migrate
pub mod Logger
pub mod Deadlines
pub mod Objects
pub mod Ratios
pub mod Signature
pub mod Schema
pub mod Tx
pub mod Repositories
pub mod Services
pub mod Routes
pub mod Audit
pub mod Seeds
pub mod Demo
pub mod Server
pub mod Tests
