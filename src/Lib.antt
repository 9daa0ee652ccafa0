-- ===== src/Lib.antt =====
-- Verification of postfix-blocker, a Python program that keeps the lists of blocked recipients of a
-- Postfix server in a database. A web API (postfix_blocker/web) edits the list, the log levels and
-- the administrator's account; a service (postfix_blocker/services/blocker_service.py) polls the
-- database, writes the map files that Postfix reads (postfix_blocker/postfix/maps.py) and has Postfix
-- reload them (postfix_blocker/postfix/control.py).
--
-- Shared modules. Prelude passes on the library's names and adds Boolean tests and lists measured by
-- native numbers. Text is Python's `str` as code points, with `strip`, `splitlines` and `int`. Exec is
-- Python code that changes a state and may raise: a function from a state to an outcome and a state,
-- where what was done before an exception stays done.
--
-- Models, by source file:
--   Blocker: postfix_blocker/services/blocker_service.py. `round` is one pass of the loop of
--     `run_forever`, `Service` its variables with the files and the commands run so far, and `Seen`
--     what the database and the disk answer in that pass. `sorted` is the signature's sort.
--     Blocker.Start is the PID file and `_init_engine_and_db`, on a list of what its passes meet;
--     Blocker.Refresh is the event that SIGUSR1 sets, as a step relation; Blocker.Forever is
--     `run_forever` as a whole. Pipeline puts the API and the service together.
--   Postfix.Maps: postfix_blocker/postfix/maps.py; the four files are a record, and a write may be
--     refused, cut short or complete.
--   Postfix.Control: postfix_blocker/postfix/control.py; the state is the list of the commands run.
--   Postfix.LogLevel: postfix_blocker/postfix/log_level.py; main.cf is a text or missing.
--   Db.Table is the interface to a table with a unique key (one database, whose queries may raise),
--     its laws `IsTable` for a database that answers, and a table in memory that fulfils them.
--     Db.Props and Db.Admins are postfix_blocker/db/props.py and postfix_blocker/db/admins.py on it.
--     Db.Schema is postfix_blocker/db/schema.py, its tables as data. Db.Engine is
--     postfix_blocker/db/engine.py with its caches, and `ensure_db_ready` of
--     postfix_blocker/web/app_factory.py.
--     Db.Db2 and Db.Migrations are `init_db` of postfix_blocker/db/migrations.py: `Catalog` is what the
--     Db2 part asks of the database, `Schema` what the other dialects' part does, and the statements
--     executed are recorded in order.
--   Web.Json and Web.Http are JSON bodies and replies. Web.Auth is postfix_blocker/web/auth.py and
--     the password and session routes of postfix_blocker/web/routes_auth.py; `World` is the session
--     and the databases that may hold `um_user`. Web.Passkeys is the passkey routes of that file, with
--     `WebAuthn` the package that they call. Web.Addresses is
--     postfix_blocker/web/routes_addresses.py on a table parameter `Blocked`; Web.Logs is the settings
--     of postfix_blocker/web/routes_logs.py, with postfix_blocker/services/log_tail.py and
--     `set_logger_level` of postfix_blocker/logging_setup.py, and Web.Logs.Files its routes that read a
--     log. Web.TestReset is postfix_blocker/web/routes_test_reset.py.
--     Web.App is postfix_blocker/web/app_factory.py with all routes: a `Deployment` is what the process
--     runs on, a `State` the process and one client's session, a `Call` a request of a
--     route, and `answer` composes `login_required`, `ensure_db_ready` with `init_db`, and the
--     handlers. Web.App.Factory is `create_app`.
--   Startup: postfix_blocker/config.py, and `configure_logging` of postfix_blocker/logging_setup.py.
--   Changelog: scripts/generate_changelog.py, with what git prints as a parameter. Badge:
--     scripts/gen_coverage_badge.py.
--
-- Code that is not in the repository is a parameter: the database (Table), password hashes
-- (Hashing), passkeys (WebAuthn, Base64), `hash`, subprocess.run, the disk, and the attributes of the
-- module `logging`. Every loop is a recursion on the list that it goes over, or of what its passes
-- meet; only the digits of a number are made on fuel, the number itself, which is enough since `int`
-- reads them back (Text.Decimal.RoundTrip). The endless loop of the service is given by its rounds.
--
-- Not modelled: how Flask and SQLAlchemy work inside, the request hooks of
-- postfix_blocker/web/app_factory.py, which only log, the entry points postfix_blocker/api.py and
-- postfix_blocker/blocker.py with their helpers for tests, the converters of
-- postfix_blocker/models/entries.py, which the program does not call, and the shell scripts. Where
-- `get_user_engine` raises, the handlers of the users raise at their first access to that database:
-- the model has no other sign of it than that each operation on this database raises. Log
-- output is left out throughout. `upper` and `lower` change the ASCII letters alone, and JSON numbers
-- are integers.
pub mod Prelude
pub mod Exec
pub mod Text
pub mod Postfix
pub mod Db
pub mod Blocker
pub mod Web
pub mod Startup
pub mod Pipeline
pub mod Changelog
pub mod Badge
