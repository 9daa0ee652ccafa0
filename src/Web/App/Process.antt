-- ===== src/Web/App/Process.antt =====
-- What the app of postfix_blocker/web/app_factory.py runs on, the calls that its routes serve, the state
-- of the process and of one client, and the parts of that state that the handlers work on.
use postfixblocker.Prelude.{ℕ, Bool, Option, none, some, List}
use postfixblocker.Text.{Text}
use postfixblocker.Text.Decimal.{ℤ}
use postfixblocker.Exec.{Exn, Outcome, Exec}
use postfixblocker.Postfix.Maps.{WriteOutcome}
use postfixblocker.Db.Table.{Table}
use postfixblocker.Db.Props.{Driver}
use postfixblocker.Db.Admins.{Admin, Hashing}
use postfixblocker.Db.Db2.{Statement, Catalog}
use postfixblocker.Db.Engine.{App}
use postfixblocker.Db.Migrations.{Schema}
use postfixblocker.Web.Json.{Json}
use postfixblocker.Web.Http.{Response}
use postfixblocker.Web.Auth.{Session, Env, World}
use postfixblocker.Web.Passkeys.{WebAuthn, Base64, Site}
use postfixblocker.Web.Addresses.{Blocked, Api as BlockedApi}
use postfixblocker.Web.Addresses.Listing.{Queries, Args}
use postfixblocker.Web.Logs.{Api as LogsApi}
use postfixblocker.Web.TestReset.{Tables}
use postfixblocker.Web.Logs.Files.{Files, LogPaths}

-- A part of the main database: what is in it, and the database with that part replaced.
pub record Part (Main Db : Type 0) : Type 0 where
  pub get : Main → Db
  pub put : Db → Main → Main

-- What the process runs on. The main database is that of the properties; `blocked_addresses` and
-- the `um_user` that the migrations and the routes may find there are parts of it, and so are the two
-- tables that the test routes reset. `test_routes` says whether the factory registered these routes.
pub record Deployment : Type 1 where
  pub env : Env
  pub props : Table (Option Text)
  pub driver : Driver props
  pub catalog : Catalog props.Db
  pub schema : Schema props.Db
  pub users : Table Admin
  pub hashing : Hashing
  pub count : Text → Exec users.Db ℕ
  pub driver_probe : Text → Exec users.Db Bool
  pub create_user_table : Exec users.Db (Unit {0})
  pub main_users : Part props.Db users.Db
  pub blocked : Blocked
  pub main_blocked : Part props.Db blocked.Db
  pub queries : Queries blocked.Db
  pub is_db2 : Bool
  pub wa : WebAuthn
  pub b64 : Base64
  pub site : Site
  pub attribute : Text → Option (Option ℤ)
  pub repr : Json → Text
  pub test_routes : Bool
  pub test_reset_enable : Option Text
  pub tests : Tables
  pub main_tests : Part props.Db tests.Db
  pub files : Files
  pub paths : LogPaths

-- How the calls outside the process end during a request: `get_engine`, `get_user_engine` in the
-- migrations, the service's PID file, and Postfix's main.cf.
pub record Conditions : Type 0 where
  pub refused : Option Exn
  pub user_engine : Outcome (Unit {0})
  pub pid : Outcome Text
  pub readable : Bool
  pub outcome : WriteOutcome

-- The routes, with what a request gives them.
pub data Call : Type 0 where
  call_list_addresses : Args → Call
  call_add_address : Option Json → Call
  call_delete_address : ℕ → Call
  call_update_address : ℕ → Option Json → Call
  call_get_log_level : Text → Call
  call_put_log_level : Text → Option Json → Call
  call_get_refresh : Text → Call
  call_put_refresh : Text → Option Json → Call
  call_tail_log : Option Text → Option Text → Call
  call_lines_count : Option Text → Call
  call_password_login : Option Json → Call
  call_password_change : Option Json → Call
  call_logout call_me call_register_challenge : Call
  call_register_verify : Text → Call
  call_login_challenge : Call
  call_login_verify : Text → Call
  call_test_reset : Option Json → Call
  call_test_dump : Call

module _ (d : Deployment) where
  -- The client's session, `app.config`, the two databases, the statements of the Db2 bootstrap, the
  -- processes signalled, the level of the root logger, and main.cf.
  pub record State : Type 0 where
    pub session : Session
    pub um_engine : Option d.users.Db
    pub user_engine : d.users.Db
    pub config : App
    pub main : d.props.Db
    pub executed : List Statement
    pub signals : List ℤ
    pub root_level : Option ℤ
    pub main_cf : Option Text

  -- What the routes of the users see: `um_user` of the main database, once there is an engine.
  abbrev pub main_um : State → Option d.users.Db
  main_um s = elim s.config.db_engine [ none ↦ none | some eng ↦ some (d.main_users.get s.main) ]

  abbrev pub put_main_um : Option d.users.Db → d.props.Db → d.props.Db
  put_main_um none main = main
  put_main_um (some um) main = d.main_users.put um main

  abbrev pub auth_world : State → World d.users
  auth_world s = record {
    session = s.session;
    um_engine = s.um_engine;
    db_engine = main_um s;
    user_engine = s.user_engine;
  }

  abbrev pub with_auth : State → World d.users → State
  with_auth s w = record s {
    session = w.session;
    um_engine = w.um_engine;
    user_engine = w.user_engine;
    main = put_main_um w.db_engine s.main;
  }

  abbrev pub on_auth : Exec (World d.users) Response → Exec State Response
  on_auth m s = let (r, w) = m (auth_world s) in (r, with_auth s w)

  abbrev pub blocked_api : State → BlockedApi d.blocked d.env
  blocked_api s = record {
    session = s.session;
    db = d.main_blocked.get s.main;
    signals = s.signals;
  }

  abbrev pub with_blocked : State → BlockedApi d.blocked d.env → State
  with_blocked s w = record s {
    session = w.session;
    main = d.main_blocked.put w.db s.main;
    signals = w.signals;
  }

  abbrev pub on_blocked : Exec (BlockedApi d.blocked d.env) Response → Exec State Response
  on_blocked m s = let (r, w) = m (blocked_api s) in (r, with_blocked s w)

  abbrev pub logs_api : State → LogsApi d.props d.env d.attribute d.repr
  logs_api s = record {
    session = s.session;
    db = s.main;
    root_level = s.root_level;
    main_cf = s.main_cf;
  }

  abbrev pub with_logs : State → LogsApi d.props d.env d.attribute d.repr → State
  with_logs s w = record s {
    session = w.session;
    main = w.db;
    root_level = w.root_level;
    main_cf = w.main_cf;
  }

  abbrev pub on_logs :
      Exec (LogsApi d.props d.env d.attribute d.repr) Response → Exec State Response
  on_logs m s = let (r, w) = m (logs_api s) in (r, with_logs s w)

  abbrev pub with_tests : State → d.tests.Db → State
  with_tests s tables = record s { main = d.main_tests.put tables s.main }

  abbrev pub on_tests : Exec d.tests.Db Response → Exec State Response
  on_tests m s = let (r, tables) = m (d.main_tests.get s.main) in (r, with_tests s tables)

  abbrev pub on_session : Exec Session Response → Exec State Response
  on_session m s = let (r, session) = m s.session in (r, record s { session = session })
