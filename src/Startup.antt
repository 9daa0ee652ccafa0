-- ===== src/Startup.antt =====
-- What both programs do before anything else: postfix_blocker/config.py, and `configure_logging` of
-- postfix_blocker/logging_setup.py. `F` is the type of floats; `attribute` looks a name up in the
-- module `logging`.
pub mod Twice
use postfixblocker.Prelude.{
  ℕ, ◌≡◌, Bool, true, false, Option, none, some, List, [], ◌∷◌, ◌++◌, map, any, if◌then◌else◌,
  or_else,
}
use postfixblocker.Text.{Text, codes, ◌==◌, strip, upper}
use postfixblocker.Text.Decimal.{ℤ, pos, parse_int}
use postfixblocker.Exec.{
  value_error, Exn, Outcome, ok, raised, Exec, pure, raise, continue, ◌>>=◌, ◌>>◌,
}

pub record Config (F : Type 0) : Type 0 where
  pub db_url : Text
  pub check_interval : F
  pub postfix_dir : Text
  pub pid_file : Text
  pub api_log_file : Option Text
  pub api_log_level : Text
  pub blocker_log_file : Option Text
  pub blocker_log_level : Text

-- `load_config`: the interval that is no float is an exception.
pub load_config : {F : Type 0} → (Text → Outcome F) → (Text → Option Text) → Outcome (Config F)
load_config float e = elim (float (or_else (e (codes "BLOCKER_INTERVAL")) (codes "5"))) [
  | raised x ↦ raised x
  | ok interval ↦ ok (record {
    db_url =
        or_else (e (codes "BLOCKER_DB_URL"))
          (codes "ibm_db_sa://db2inst1:blockerpass@db2:50000/BLOCKER");
    check_interval = interval;
    postfix_dir = or_else (e (codes "POSTFIX_DIR")) (codes "/etc/postfix");
    pid_file =
        or_else (e (codes "BLOCKER_PID_FILE")) (codes "/var/run/postfix-blocker/blocker.pid");
    api_log_file = e (codes "API_LOG_FILE");
    api_log_level = or_else (e (codes "API_LOG_LEVEL")) (codes "INFO");
    blocker_log_file = e (codes "BLOCKER_LOG_FILE");
    blocker_log_level = or_else (e (codes "BLOCKER_LOG_LEVEL")) (codes "INFO");
  })
]

-- A handler: its level, whether `setLevel` raises, and `baseFilename` where it is a rotating file.
pub record Handler : Type 0 where
  pub level : ℤ
  pub is_fixed : Bool
  pub file : Option Text

-- The root logger.
pub record Root : Type 0 where
  pub level : ℤ
  pub handlers : List Handler

-- `_set_handler_level_safely`.
pub set_handler_level : ℤ → Handler → Handler
set_handler_level n h = if h.is_fixed then h else record h { level = n }

abbrev pub is_file : Text → Handler → Bool
is_file base h = elim h.file [ none ↦ false | some path ↦ path == base ]

abbrev new_handler : ℤ → Text → Handler
new_handler n base = record { level = n; is_fixed = false; file = some base }

-- The file handler, on how the creation of its directory and itself ends; there is one for each file.
pub add_file : ℤ → Outcome Text → List Handler → List Handler
add_file n (raised e) handlers = handlers
add_file n (ok base) handlers =
    if any (is_file base) handlers then handlers else handlers ++ new_handler n base ∷ []

-- The part for `path_s`, which is `none` where it is missing or empty.
pub add_path : ℤ → Option (Outcome Text) → List Handler → List Handler
add_path n none handlers = handlers
add_path n (some opened) handlers = add_file n opened handlers

abbrev or_default : Option Text → Text → Text
or_default none default = default
or_default (some []) default = default
or_default (some (c ∷ s)) default = c ∷ s

abbrev bad_level : Exn
bad_level = record { kind = value_error; message = codes "Unknown level" }

module _ (attribute : Text → Option (Option ℤ)) where
  -- `int(raw)`, else the attribute of `logging`, else INFO; `none` is no number.
  abbrev level_of : Option ℤ → Text → Option ℤ
  level_of none raw = or_else (attribute (upper raw)) (some (pos 20))
  level_of (some n) raw = some n

  abbrev with_level : Option ℤ → Option (Outcome Text) → Exec Root (Unit {0})
  with_level none opened root = (raised bad_level, root)
  with_level (some n) opened root = (
    ok tt,
    record { level = n; handlers = add_path n opened (map (set_handler_level n) root.handlers) },
  )

  -- `configure_logging`, for the value of `level_env`, the default, and the file.
  pub configure_logging : Option Text → Text → Option (Outcome Text) → Exec Root (Unit {0})
  configure_logging value default opened =
      let raw = strip (or_default value default) in with_level (level_of (parse_int raw) raw) opened
