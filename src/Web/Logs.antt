-- ===== src/Web/Logs.antt =====
-- The settings of postfix_blocker/web/routes_logs.py with `set_logger_level` of
-- postfix_blocker/logging_setup.py, and postfix_blocker/services/log_tail.py. `attribute` looks a
-- name up in the module `logging`, `repr` is Python's text of a list or a dict.
pub mod Settings
pub mod Tail
pub mod Files
pub mod Guarded
mod Tests
use postfixblocker.Prelude.{
  ℕ, zero, suc, ◌-◌, min, max, ◌≡◌, Bool, true, false, Option, none, some, List, [], ◌∷◌, length,
  drop, if◌then◌else◌, or_else,
}
use postfixblocker.Text.{Text, codes, ◌==◌, is_empty, strip, upper, lower, join, splitlines}
use postfixblocker.Text.Decimal.{ℤ, pos, negsuc, parse_int, show_int}
use postfixblocker.Text.Lines.{lf}
use postfixblocker.Exec.{
  Exn, value_error, Outcome, ok, raised, Exec, pure, raise, lift, or_raise, handle, continue, ◌>>=◌,
  ◌>>◌,
}
use postfixblocker.Postfix.Maps.{WriteOutcome}
use postfixblocker.Postfix.LogLevel.{apply_postfix_log_level}
use postfixblocker.Db.Table.{Table}
use postfixblocker.Db.Props.{
  Service, api, blocker, postfix, service_name, log_key, refresh_key, lines_key, get_prop, set_prop,
}
use postfixblocker.Web.Json.{
  Json, Fields, null, num, str, obj, field, end, get_field, get_or, truthy, fields_or_empty, int_of,
  text_of,
}
use postfixblocker.Web.Http.{Response, error_response, abort}
use postfixblocker.Web.Auth.{Session, Env, guarded}
use postfixblocker.Web.Addresses.{not_ready, done_response}

-- `name in LOG_KEYS`; REFRESH_KEYS and LINES_KEYS have the same names.
unfoldable pub service_of : Text → Option Service
service_of name =
    if name == service_name api
    then some api
    else if name == service_name blocker
    then some blocker
    else if name == service_name postfix
    then some postfix
    else none

-- `max(min(int(args.get('lines', '200')), 8000), 1)`, and 200 where `int` raises.
abbrev clamp_lines : ℤ → ℕ
clamp_lines (pos n) = max (min n 8000) 1
clamp_lines (negsuc n) = 1

abbrev lines_or_default : Option ℤ → ℕ
lines_or_default none = 200
lines_or_default (some n) = clamp_lines n

pub tail_lines : Option Text → ℕ
tail_lines arg = lines_or_default (parse_int (or_else arg (codes "200")))

-- `all_lines[-lines:]`.
pub tail_slice : ℤ → List Text → List Text
tail_slice (pos zero) all_lines = all_lines
tail_slice (pos (suc n)) all_lines = drop (length all_lines - suc n) all_lines
tail_slice (negsuc n) all_lines = drop (suc n) all_lines

-- `tail_file`, on the text of the file.
pub tail_file : Text → ℤ → Text
tail_file content lines = join lf (tail_slice lines (splitlines content))

module _ (t : Table (Option Text)) (env : Env) (attribute : Text → Option (Option ℤ))
    (repr : Json → Text) where
  open t use {Db}

  -- The session, the database, the root logger's level, and Postfix's main.cf.
  pub record Api : Type 0 where
    pub session : Session
    pub db : Db
    pub root_level : Option ℤ
    pub main_cf : Option Text

  abbrev pub on_db : {A : Type 0} → Exec Db A → Exec Api A
  on_db m w = let (r, d) = m w.db in (r, record w { db = d })

  abbrev set_root : Option ℤ → Exec Api (Unit {0})
  set_root none w = (raised (record { kind = value_error; message = codes "Unknown level" }), w)
  set_root (some n) w = (ok tt, record w { root_level = some n })

  -- `int(level_s)`, else the attribute of `logging`, else INFO; `setLevel` refuses what is no number.
  abbrev pub logger_level : Option ℤ → Text → Option ℤ
  logger_level none level_s = or_else (attribute (upper level_s)) (some (pos 20))
  logger_level (some n) level_s = some n

  pub set_logger_level : Text → Exec Api (Unit {0})
  set_logger_level level_s = set_root (logger_level (parse_int level_s) level_s)

  -- What a new level means for the process or for Postfix.
  pub apply_level : Bool → WriteOutcome → Service → Text → Exec Api (Unit {0})
  apply_level readable outcome api level_s w = set_logger_level level_s w
  apply_level readable outcome blocker level_s w = (ok tt, w)
  apply_level readable outcome postfix level_s w =
      (ok tt, record w { main_cf = (apply_postfix_log_level readable outcome level_s w.main_cf).0 })

  -- The guard, the check of the name, and the check of the database.
  abbrev pub for_service :
      Option Service → Option Bool → (Service → Exec Api Response) → Exec Api Response
  for_service none ready fn = guarded (λ w. w.session) env (raise (abort 404 (codes "Not Found")))
  for_service (some s) ready fn =
      guarded (λ w. w.session) env
        (if not_ready ready then pure (error_response 503 (codes "database not ready")) else fn s)

  abbrev json_fields : Option Json → Exec Api Fields
  json_fields body = do
    json ← or_raise body (abort 400 (codes "Bad Request"))
    lift (fields_or_empty json)

  abbrev text_or_null : Option Text → Json
  text_or_null none = null
  text_or_null (some s) = str s

  abbrev pub level_response : Service → Option Text → Response
  level_response s level = record {
    status = 200;
    body = obj (
        field (codes "service") (str (service_name s))
          (field (codes "level") (text_or_null level) end));
  }

  pub read_level : Service → Exec Api Response
  read_level s = do val ← on_db (get_prop t (log_key s) none); pure (level_response s val)

  pub get_log_level : Option Bool → Text → Exec Api Response
  get_log_level ready service = for_service (service_of service) ready read_level

  -- `str(data.get('level') or '').strip()`.
  abbrev pub level_text : Fields → Text
  level_text data' =
      let v = get_or (get_field (codes "level") data') null in
      strip (if truthy v then text_of repr v else [])

  pub store_level : Bool → WriteOutcome → Text → Service → Exec Api Response
  store_level readable outcome level_s s =
      if is_empty level_s then raise (abort 400 (codes "level is required")) else (do
        on_db (set_prop t (log_key s) (some level_s))
        apply_level readable outcome s level_s
        pure (done_response 200 (codes "ok")))

  pub put_log_level : Bool → WriteOutcome → Option Bool → Text → Option Json → Exec Api Response
  put_log_level readable outcome ready service body =
      for_service (service_of service) ready
        λ s. do data' ← json_fields body; store_level readable outcome (level_text data') s

  abbrev pub refresh_response : Service → ℤ → ℤ → Response
  refresh_response s ms lines = record {
    status = 200;
    body = obj (
        field (codes "name") (str (service_name s))
          (field (codes "interval_ms") (num ms) (field (codes "lines") (num lines) end)));
  }

  -- `int(value or default)`.
  abbrev pub int_or : Option Text → Text → Outcome ℤ
  int_or none default = int_of (str default)
  int_or (some []) default = int_of (str default)
  int_or (some (c ∷ s)) default = int_of (str (c ∷ s))

  pub read_refresh : Service → Exec Api Response
  read_refresh s = do
    ms_s ← on_db (get_prop t (refresh_key s) (some (codes "5000")))
    ms ← lift (int_or ms_s (codes "5000"))
    lines_s ← on_db (get_prop t (lines_key s) (some (codes "100")))
    lines ← lift (int_or lines_s (codes "100"))
    pure (refresh_response s ms lines)

  pub get_refresh_interval : Option Bool → Text → Exec Api Response
  get_refresh_interval ready name = for_service (service_of (lower name)) ready read_refresh

  pub store_refresh : ℤ → ℤ → Service → Exec Api Response
  store_refresh ms lines s = do
    on_db (set_prop t (refresh_key s) (some (show_int ms)))
    on_db (set_prop t (lines_key s) (some (show_int lines)))
    pure (done_response 200 (codes "ok"))

  pub put_refresh_interval : Option Bool → Text → Option Json → Exec Api Response
  put_refresh_interval ready name body = for_service (service_of (lower name)) ready λ s. do
    data' ← json_fields body
    ms ← lift (int_of (get_or (get_field (codes "interval_ms") data') (num (pos 0))))
    lines ← lift (int_of (get_or (get_field (codes "lines") data') (num (pos 200))))
    store_refresh ms lines s
