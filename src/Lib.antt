-- ===== src/Lib.antt =====
-- ChoreApp backend (backend/app): a household chore tracker.
--
-- The parts and their files. Every handler of the API runs in one database transaction, which it
-- gets from get_db, after the permission checks of api/deps.py.
-- Base: tests on numbers, lists, association lists and tables of rows told apart by a key.
-- Models: models/*.py and core/constants.py. Each table is a list of rows, each row a record with
--   the columns as fields; Database is all the tables.
-- Session: db/session.py. A handler is an Action: it takes what its transaction sees and what is
--   committed, and answers or raises. get_db commits at the end, or rolls back to what is committed.
-- Engine: the order in which PostgreSQL returns rows, a parameter of every definition that reads a
--   list of rows. A query is some permutation of the rows that pass its WHERE clause, sorted as its
--   ORDER BY says.
-- Security: core/security.py. Crypto is bcrypt, PyJWT, hashlib and uuid, with what is relied on. A
--   password on which bcrypt raises an exception is answered with 500.
-- Deps: get_current_user, require_household_member and require_admin of api/deps.py.
-- Auth: api/auth.py. Accounts: api/users.py and services/account_deletion.py, which calls
--   Redistribution for the households that a user leaves. Models.Cascades has the ON DELETE rules.
-- Households: api/households.py; Requests puts all the requests that write memberships together as the
--   steps of a run. Leaderboard: api/leaderboard.py, with Periods for the points of a period
--   and Credits for what a completion in Chores adds to them. Groceries: api/groceries.py.
-- Assignment: services/assignment.py, the rotation of a household's chores among its members.
--   It is called by Chores (create, reassign), Redistribution and Scheduler.
-- Redistribution: services/redistribution.py, called by Members when somebody goes.
-- Members: the listing, removal, role change and departure of api/members.py.
-- Chores: api/chores.py. Responses has the shared queries, Transitions the handlers on one
--   instance, Definitions those on a series, Listing those that only read, Wanted the rows that the
--   filters of a listing stand for; Requests puts the handlers, the departures and the daily job
--   together as the steps of a run.
-- Invites: api/invites.py.
-- Scheduler: tasks/scheduler.py, the daily job; DueDates has _compute_due_dates, Scheduled what
--   should have an instance, Reminders the summaries for the notifications and the whole of
--   run_daily_job.
-- Notifications: services/notifications.py. The HTTP client is a parameter that answers or fails as
--   it likes; what is posted is a value.
-- Settings: core/config.py, with the methods of str in Texts. Cli: the reset of a password in cli.py.
-- Migrations: backend/alembic/versions/b7c1d4e9f2a3_normalize_email_case.py, the one migration that
--   rewrites rows; lower() of PostgreSQL is a parameter.
-- Examples: an engine, a small database, and the theorems applied to them.
--
-- Conventions. Identifiers (UUIDs) are numbers, instants are microseconds and dates are days, both as
-- numbers. Identifiers that uuid4 draws, random tokens, and what the clock shows are arguments of the
-- operations; where a theorem needs identifiers to be new, it says so. add_months stands for
-- dateutil's relativedelta(months=n). The one loop that is not structural, that of
-- _compute_due_dates, runs on fuel: horizon + 1 - first_due_date steps, enough since the schema
-- keeps the interval of a rule at 1 or more and where add_months, too, moves to a later date.
--
-- Requests are served one after the other. The row locks of the program serialise the transactions
-- that write the same rows; interleavings of transactions are not modelled, nor are failures of the
-- database. Unique constraints and foreign keys do not stop a write of the model; an update with a
-- null for a required column is answered with 409, as backend/main.py does.
--
-- Not modelled: logging, the parsing and validation of requests by FastAPI and Pydantic, rate limits,
-- the middleware and the start of the application in main.py, the parser of the command line, the
-- migrations of the schema, and the client. The texts of settings and of emails typed at the command
-- line are taken to be ASCII where the source calls strip() and lower().
pub mod Notifications
pub mod Migrations
pub mod Settings
pub mod Texts
pub mod Cli
pub mod Groceries
pub mod Leaderboard
pub mod Accounts
pub mod Households
pub mod Base
pub mod Security
pub mod Auth
pub mod Models
pub mod Session
pub mod Engine
pub mod Assignment
pub mod Redistribution
pub mod Deps
pub mod Members
pub mod Chores
pub mod Invites
pub mod Scheduler
pub mod Examples
