-- ===== src/Lib.antt =====
-- Time tracker: a model of its domain rules, its application service, its SQLite storage, and the
-- core of its server and remote client.
--
-- The program tracks work on tasks. A task has a name and is archived or not; a worklog is an
-- interval of work on a task, active while it has no end. At most one worklog is active. Clients
-- (terminal, command line, server, macOS) call an application service, which applies the rules of
-- the domain and persists through a repository. The local repository is an SQLite database whose
-- triggers guard every write, since several processes share one file. A server owns such a service
-- and answers remote clients, which decode its answers and classify its failures.
--
-- Files and the code they model:
--   Domain/Values       identifiers and instants (crates/tracker-domain/src/ids.rs)
--   Domain/TaskName     TaskName (task.rs); Trim and Accepted hold its theorems
--   Domain/Task         Task (task.rs); Timestamps holds its theorems
--   Domain/Worklog      WorklogTimes and Worklog (worklog.rs); Overlap and Correction
--   Domain/Inactivity   InactivityPeriod (inactivity.rs)
--   Domain/ActiveWorklog  ActiveWorklog (worklog.rs)
--   Domain/Tracking     Tracker, the state machine (tracking.rs); Commands holds its theorems
--   Application/Timestamps  truncation to microseconds
--                       (crates/tracker-application/src/timestamps.rs)
--   Application/Model   read models (model.rs, repository.rs)
--   Application/Ordering  TaskOrdering::sort_items (model.rs)
--   Application/TaskSearch  fuzzy_match and SearchRank (task_search.rs)
--   Application/MoveCandidates  move_candidates_for_tasks (service/worklogs.rs)
--   Application/ReportTotals  totals_from_rows (service/reports.rs)
--   Application/Repository, Application/Service  TrackerRepository and TrackerApplication: the
--                       cached state, its refresh and recovery (repository.rs, service/mod.rs)
--   Application/Error   ApplicationError; Failure is what clients see of one (error.rs)
--   Application/CalendarReports  calendar periods and the start of a day (calendar_reports.rs)
--   Application/Service/Tracking  making a task active and the tracker idle (service/tracking.rs)
--   Application/Service/Command  methods with `?` as commands on the application
--   Application/Service/Catalog  adopting reads and reloading after failures (service/mod.rs)
--   Application/Service/Tasks, Application/Service/Worklogs  the commands on tasks and worklogs and
--                       the reports (service/tasks.rs, service/worklogs.rs, service/reports.rs)
--   Application/Service/Requests  TrackerApplicationService: the commands as requests, and
--                       histories of them (service/mod.rs)
--   Storage/Errors      classification of SQLite failures (crates/tracker-storage/src/error.rs)
--   Storage/Schema      the current schema (migrate.rs): tables, and the tests of its constraints and
--                       triggers; Predecessor holds its theorems
--   Storage/Statements  the statements that they guard; Enforce holds its theorems
--   Storage/Mapping, Storage/Reads  rows and shared queries (sqlite/mapping.rs and others); Range
--                       says which rows can be read
--   Storage/Tracking, Storage/Worklogs, Storage/Tasks, Storage/History,
--   Storage/GlobalHistory, Storage/Reports
--                       the operations of SqliteRepository (sqlite/*.rs)
--   Storage/History/Pages, Storage/Tracking/Refusals  a client that follows the page cursors, and
--                       the reasons of a refused insert
--   Storage/Requests    the writes of the repository as requests, and histories of them; Consistent
--                       and Ranged hold what every history keeps
--   Storage/Invariant   the invariant of the database, statement by statement
--   Storage/Repository  SqliteRepository as the repository of the service (sqlite/mod.rs)
--   Remote/Protocol, Remote/Mutation  data of the wire (crates/tracker-protocol/src/lib.rs)
--   Remote/Decoding, Remote/Errors  a client's view of answers and failures
--                       (crates/tracker-remote/src/application/decoding.rs, error.rs)
--   Remote/Transport    a write and its repetition (transport.rs)
--   Remote/Client, Remote/Session  the client's state, version check and receipts (session.rs)
--   Remote/Creation     creating a task and recovering a lost answer (coordinator.rs, tasks.rs);
--                       Pending and Kept hold its theorems
--   Server/Core         Core::execute: the receipts of commands (crates/tracker-server/src/core.rs);
--                       Receipts, Bounded, Within and Replay hold its theorems
--   Server/Errors       ApiError from ApplicationError (error.rs)
--   Server/Commands, Server/Handler  the requests of commands, and `?` in a handler
--   Server/Requests     the handlers of commands (tasks.rs, tracking.rs, worklogs.rs); Operations and
--                       Served hold its theorems
--   Server/Resources    the task list resource (resources.rs)
--   Prelude             results, tests, tables, sorts, comparisons and sums that these share
--
-- State and operations: a method on `&mut self` returns its result and the value behind it; an
-- operation of the repository takes a Database and returns its result and the Database behind it.
-- A transaction that is dropped without a commit leaves the Database as it was (`transact`).
-- SQLite serialises writers, so concurrent clients are a list of requests in some order.
--
-- Numbers: an instant counts nanoseconds from 2 ^ 63 microseconds before the epoch, so that every
-- stored i64 of microseconds is a natural number, also one that is no timestamp; `i64` sums of
-- durations are checked against 2 ^ 63 - 1. An identifier is the 128-bit value of its UUID, whose
-- order is that of its text; in a row, a larger number stands for a text that is no UUID. A text is
-- the list of its Unicode scalar values. Most loops of the code are a recursion on a list. The
-- client of the pages takes a number of requests as fuel, one more than the worklogs at most, since
-- a page that has a successor is full; the search for the start of a day takes one round for each
-- of the 1440 minutes and one that finds the next day. A local time counts the seconds from the
-- first date of the calendar, a date its days.
--
-- Parameters: `Storage.Errors.Sqlite`, which of several violated constraints a statement reports,
-- with the law that it reports one of them; `char::to_lowercase`, a function to lists of
-- characters; the texts of errors and of identifiers, with the parsers of identifiers and of error
-- bodies; the server's clock and the fingerprints of its requests; the calendar and the time zone;
-- one HTTP exchange of a client; and `TrackerRepository`, over which the service is written, with
-- its contract `Application.Service.Tracking.Contract.IsTracking` where a theorem needs it. An
-- UPDATE or DELETE selects its row by primary key, so the branches of the code for an impossible
-- row count do not occur.
--
-- Written out from the standard library: `str::trim` and the classes of characters that names need.
-- Of chrono, the range of the counts that are timestamps: a stored count outside it, and a stored
-- text that is no identifier, make the read of their row fail.
--
-- Not modelled: the texts of UUIDs and their generation, opening a database and upgrading an old
-- schema, file paths, JSON and HTTP, the server's read handlers and its request guards, the remote
-- client's other commands with the rest of its decoding, the selection of a backend, and the user
-- interfaces.
mod Prelude
pub mod Domain
pub mod Application
pub mod Storage
pub mod Remote
pub mod Server
