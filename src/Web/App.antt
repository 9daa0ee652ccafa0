-- ===== src/Web/App.antt =====
-- postfix_blocker/web/app_factory.py and the routes that its app serves, as one state machine: a call
-- of a route takes the state of the process and of one client to a reply and the next state.
pub mod Process
pub mod Ready
pub mod Apart
pub mod Refused
pub mod Unauthenticated
pub mod Switched
pub mod Access
pub mod Factory
mod Example
mod Tests
use postfixblocker.Prelude.{
  ℕ, ◌≡◌, Bool, true, false, not, ◌&&◌, ◌||◌, Option, none, some, List, [], ◌∷◌, ◌++◌, is_some,
  if◌then◌else◌,
}
use postfixblocker.Text.{Text, codes, lower}
use postfixblocker.Text.Decimal.{ℤ}
use postfixblocker.Exec.{Exn, Outcome, ok, raised, Exec, raise, continue, ◌>>=◌, ◌>>◌}
use postfixblocker.Postfix.Maps.{WriteOutcome}
use postfixblocker.Db.Table.{Table}
use postfixblocker.Db.Props.{Driver}
use postfixblocker.Db.Admins.{Admin, Hashing}
use postfixblocker.Db.Db2.{Statement, Catalog}
use postfixblocker.Db.Engine.{App, ensure_db_ready}
use postfixblocker.Db.Migrations.{Schema, init_db}
use postfixblocker.Web.Json.{Json}
use postfixblocker.Web.Http.{Response, abort}
use postfixblocker.Web.Auth.{
  Session, Env, World, is_auth_required, is_unset, default_username, password_login,
  password_change, logout, me,
}
use postfixblocker.Web.Passkeys.{
  WebAuthn, Base64, Site, register_challenge, register_verify, login_challenge, login_verify,
}
use postfixblocker.Web.Addresses.{
  Blocked, Api as BlockedApi, add_address, delete_address, update_address,
}
use postfixblocker.Web.Addresses.Listing.{Queries, Args, list_addresses}
use postfixblocker.Web.Logs.{
  Api as LogsApi, service_of, get_log_level, put_log_level, get_refresh_interval,
  put_refresh_interval,
}
use postfixblocker.Web.TestReset.{Tables, is_enabled, reset_state, dump_state}
use postfixblocker.Web.Logs.Files.{Files, LogPaths, tail_log, lines_count}
use postfixblocker.Web.App.Process.{
  Part, Deployment, Conditions, Call, State, call_list_addresses, call_add_address,
  call_delete_address, call_update_address, call_get_log_level, call_put_log_level,
  call_get_refresh, call_put_refresh, call_tail_log, call_lines_count, call_password_login,
  call_password_change, call_logout, call_me, call_register_challenge, call_register_verify,
  call_login_challenge, call_login_verify, call_test_reset, call_test_dump, on_tests, main_um,
  auth_world, with_auth, on_auth, blocked_api, with_blocked, on_blocked, logs_api, with_logs,
  on_logs, on_session,
}

-- Whether the handler asks `ensure_db_ready`: the routes of the addresses, and those of the log
-- settings for a name that they know.
abbrev pub asks_ready : Call → Bool
asks_ready (call_list_addresses args) = true
asks_ready (call_add_address body) = true
asks_ready (call_delete_address entry_id) = true
asks_ready (call_update_address entry_id body) = true
asks_ready (call_get_log_level service) = is_some (service_of service)
asks_ready (call_put_log_level service body) = is_some (service_of service)
asks_ready (call_get_refresh name) = is_some (service_of (lower name))
asks_ready (call_put_refresh name body) = is_some (service_of (lower name))
asks_ready _ = false

abbrev exn_of : Outcome (Unit {0}) → Option Exn
exn_of (ok _) = none
exn_of (raised e) = some e

module _ (d : Deployment) where
  module _ (c : Conditions) where
    -- `init_db` on the main engine.
    abbrev pub init_main : Exec (State d) (Unit {0})
    init_main s =
        let (r, w) =
          init_db d.props d.driver d.catalog d.schema d.users d.hashing d.count d.driver_probe
            d.create_user_table (default_username d.env) d.is_db2 c.user_engine
            (record { db = s.main; um = s.user_engine; executed = s.executed }) in
        (r, record s { main = w.db; user_engine = w.um; executed = w.executed })

    -- Whether `ensure_db_ready` gets as far as `init_db`.
    abbrev pub reaches_init : App → Bool
    reaches_init config =
        not config.db_ready && (is_some config.db_engine || not (is_some c.refused))

    pub ensure_ready : Exec (State d) Bool
    ensure_ready s =
        let (initialized, after) = init_main s in
        let (r, config) = ensure_db_ready c.refused (exn_of initialized) s.config in
        (r, record (if reaches_init s.config then after else s) { config = config })

    -- `login_required` lets the request through.
    abbrev pub is_let_in : State d → Bool
    is_let_in s = not (is_auth_required d.env && is_unset s.session.admin_user)

    -- The test routes do not ask who the client is.
    abbrev pub asks_for_tests : Call → Bool
    asks_for_tests (call_test_reset body) = d.test_routes && is_enabled d.test_reset_enable
    asks_for_tests call_test_dump = d.test_routes && is_enabled d.test_reset_enable
    asks_for_tests _ = false

    -- Flask answers by 404 where a route is not registered.
    abbrev pub when_registered : Exec (State d) Response → Exec (State d) Response
    when_registered fn = if d.test_routes then fn else raise (abort 404 (codes "404 Not Found"))

    -- The handlers; `ready` is the result of `ensure_db_ready` for those that ask for it.
    pub handler : Call → Option Bool → Exec (State d) Response
    handler (call_list_addresses args) ready =
        on_blocked d (list_addresses d.blocked d.env d.queries ready args)
    handler (call_add_address body) ready =
        on_blocked d (add_address d.blocked d.env ready c.pid body)
    handler (call_delete_address entry_id) ready =
        on_blocked d (delete_address d.blocked d.env ready c.pid entry_id)
    handler (call_update_address entry_id body) ready =
        on_blocked d (update_address d.blocked d.env ready c.pid entry_id body)
    handler (call_get_log_level service) ready =
        on_logs d (get_log_level d.props d.env d.attribute d.repr ready service)
    handler (call_put_log_level service body) ready =
        on_logs d
          (put_log_level d.props d.env d.attribute d.repr c.readable c.outcome ready service body)
    handler (call_get_refresh name) ready =
        on_logs d (get_refresh_interval d.props d.env d.attribute d.repr ready name)
    handler (call_put_refresh name body) ready =
        on_logs d (put_refresh_interval d.props d.env d.attribute d.repr ready name body)
    handler (call_tail_log name lines) ready =
        on_session d (tail_log d.files d.paths d.env name lines)
    handler (call_lines_count name) ready = on_session d (lines_count d.files d.paths d.env name)
    handler (call_password_login body) ready =
        on_auth d (password_login d.users d.hashing d.count d.driver_probe d.env body)
    handler (call_password_change body) ready =
        on_auth d (password_change d.users d.hashing d.count d.driver_probe d.env body)
    handler call_logout ready = on_auth d (logout d.users d.hashing d.count d.driver_probe d.env)
    handler call_me ready = on_auth d (me d.users d.hashing d.count d.driver_probe d.env)
    handler call_register_challenge ready =
        on_auth d (register_challenge d.users d.hashing d.wa d.b64 d.env d.site)
    handler (call_register_verify body) ready =
        on_auth d (register_verify d.users d.hashing d.wa d.b64 d.env d.site body)
    handler call_login_challenge ready =
        on_auth d (login_challenge d.users d.hashing d.wa d.b64 d.env d.site)
    handler (call_login_verify body) ready =
        on_auth d (login_verify d.users d.hashing d.wa d.b64 d.env d.site body)
    handler (call_test_reset body) ready =
        when_registered (on_tests d (reset_state d.tests d.repr d.test_reset_enable ready body))
    handler call_test_dump ready =
        when_registered (on_tests d (dump_state d.tests d.test_reset_enable ready))

    -- A route that asks for the database does so behind `login_required`, but for the test routes,
    -- which ask wherever they are registered and enabled.
    pub answer : Call → Exec (State d) Response
    answer call s =
        if asks_ready call && is_let_in s || asks_for_tests call
        then (do ready ← ensure_ready; handler call (some ready)) s
        else handler call none s

  -- The calls of one client, one after the other: the replies, and the last state.
  abbrev pub serve : List (Conditions × Call) → State d → List (Outcome Response) × State d
  serve [] s = ([], s)
  serve ((c, call) ∷ calls) s =
      let (r, next) = answer c call s in let (rs, last) = serve calls next in (r ∷ rs, last)
