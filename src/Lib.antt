-- ===== src/Lib.antt =====
-- Ticket booking system: seats of a show are held for a while, booked, cancelled, and offered to a
-- waitlist (server/src/modules, shared).
--
-- The program keeps all state in Postgres. A service opens a transaction (withTransaction.js), runs
-- guarded statements in it, and decides whether to commit. The seat map reads the same rows.
--
-- Files, and the code that each models:
--   SeatStates     shared/seatStates.js, seatmap/seatState.machine.js#assertTransition
--   Errors         server/src/utils/errors.js, shared/errors.js
--   Sql            the fragments of SQL over a table; Sql/Laws, Sql/Keys, Sql/Counts, Sql/Inserts
--   Db, Db/Tx      the tables (migrations 001 to 005 and 008), db/withTransaction.js as a single
--                  step; Db/Connections, the same with the statements it sends and the pool
--                  (db/pool.js); Db/Connections/Atomic
--   Seatmap        seatmap.queries.js, seatmap.service.js, shows.queries.js#findShowById;
--                  Seatmap/Legends
--   Holds          holds.queries.js, holds.service.js; proofs in Holds/Acquire, Holds/AllOrNothing,
--                  Holds/Effect, Holds/Release
--   Payments       payments.queries.js, payments.service.js; Payments/Capture
--   Pricing        the priced rows and the amounts of bookings.service.js and offers.service.js
--   Bookings       bookings.queries.js, bookings.service.js#confirmBooking; proofs in
--                  Bookings/Records, Confirm, Outcome, Success, Charges, Races
--   Waitlist       waitlist.queries.js, waitlist.service.js; proofs in Waitlist/Queue,
--                  Joining
--   Offers         offers.queries.js, offers.service.js; proofs in Offers/Accept,
--                  Outcome, Exclusive
--   Cancellation   bookings.service.js#cancelBooking and its statements; proofs in
--                  Cancellation/Dispatch, Outcome, Sent
--   Accounts       auth.queries.js (Accounts/Store), auth.service.js; proofs in Accounts/Rotation,
--                  Reuse, Single, Families, Overlap, Login, Renewal
--   Venues         venues.queries.js, venues.service.js; Venues/Layout, Venues/Bulk
--   Events         events.queries.js, events.service.js; Events/Summary; proofs in
--                  Events/Totals, Pages, Update
--   Shows          shows.queries.js, shows.service.js; Shows/Details; proofs in Shows/Publish,
--                  Opening
--   Lifecycle      the calls that update seats, against the graph of shared/seatStates.js
--   Schemas        shared/schemas, as declarations for zod (Schemas/Requests), and the bodies that
--                  controllers and services read (Schemas/Bodies, Parsing, Reading); proofs in
--                  Schemas/Accepted, Lookups, Inversion, Patches, Rows
--   Config         config/env.js; Config/Boot
--   Mail           mail/mailer.js; Mail/Transport, Mail/Claims
--   Migrations     db/migrate.js; Migrations/Reset
--   Http           server/src/middleware; Http/Controllers and Http/Routes, the controllers and routes
--                  behind requireAuth; Http/Public, the public ones; Http/Sessions, auth.controller.js
--                  with its cookies; proofs in Http/Guards, Access, Passes, Reach
--   Jobs           queue/poller.js, queue/enqueue.js, utils/backoff.js; proofs in Jobs/Claims,
--                  Jobs/Counts, Jobs/Cycle, Jobs/Backoff
--   Application    app.js and the paths of every *.routes.js (Application/Routers);
--                  Application/Unique
--   Fixtures, Scenarios, Witnesses   a small database, runs on it, and the theorems at it
--
-- How state corresponds. A table is a list of rows; `Db` holds the tables. A statement is a function
-- of the database into a result and the next database; a constraint of a migration that a statement
-- can hit (primary key, UNIQUE, NOT NULL, the range of int, a foreign key that a request names) is a
-- refusal. SQL leaves the order of rows of equal rank open: for the pages of a browse and the
-- positions in the queue it is a parameter of each query, `Ties`, and where a theorem needs that
-- there are no ties it says so; the other queries take such rows in table order. `now()` is fixed at
-- the start of a transaction and is an argument. Keys, references and tokens that the program draws
-- at random are arguments; a theorem that needs them unused or distinct says so, and `Math.random()`
-- is below 1. SHA-256 and the text of an offer's token are the parameter `Crypto`; argon2, the
-- signed tokens and SHA-256 are the parameter `Auth` of the accounts, of which only a theorem that
-- needs it assumes that a password verifies against its hash; comparisons of text are the parameter
-- `Collation`. Rows that other open transactions have locked are the parameter `locked` of the SKIP
-- LOCKED query.
--
-- A service call is one step; where a theorem is about two transactions that overlap, the rest of
-- the second one after its reads (`confirm_read_seats`, `accept_read_offer`, `publish_checked_show`,
-- `rotate`) runs on the database that the first one left. The job queue is a table of its own, since
-- no service enqueues a job yet; the jobs of a batch end in the order of the list, and what a
-- handler does beside them is left out. Instants are microseconds; amounts are whole cents and the
-- fee a whole percentage, although the environment also admits a fraction; an occupancy is that of
-- the exact quotient. Loops run over lists, so there is no fuel, but for the loop of `migrate
-- reset`: there fuel above the number of applied migrations is enough, since each turn takes one of
-- them down.
--
-- A route is a function of the request and the database, with what its schema has parsed as an
-- argument, which `parse` of Schemas/Parsing gives; of an answer the status and the code of the
-- error are kept. Packages are parameters, with their documented behaviour as a named hypothesis:
-- zod (`IsDocumented`; a schema is a value of `Schema`, and `documented` what each kind of it
-- accepts), Express (the law of Application/Unique: the case of a literal and a slash at the end do
-- not matter, and a parameter is not empty), the Postgres server under a connection (`IsPostgres`),
-- nodemailer, ejs and qrcode (`Post`), and node-pg-migrate (`Runner`).
--
-- Not modelled: the lifetime of cookies, the timer of the poller, the demonstration data
-- (db/seed.js), the start of the server (index.js), the Swagger page, security headers, CORS and
-- logging, the web page, deployment and tests.
pub mod Common
pub mod Fixtures
pub mod Sql
pub mod SeatStates
pub mod Errors
pub mod Db
pub mod Seatmap
pub mod Holds
pub mod Payments
pub mod Waitlist
pub mod Bookings
pub mod Pricing
pub mod Offers
pub mod Cancellation
pub mod Jobs
pub mod Accounts
pub mod Events
pub mod Venues
pub mod Shows
pub mod Http
pub mod Lifecycle
mod Scenarios
mod Witnesses
pub mod Schemas
pub mod Config
pub mod Migrations
pub mod Mail
pub mod Application
