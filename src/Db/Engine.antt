-- ===== src/Db/Engine.antt =====
-- postfix_blocker/db/engine.py, and `ensure_db_ready` of
-- postfix_blocker/web/app_factory.py. An engine is the number of the call of `create_engine` that
-- made it, so that two engines for one URL are two engines.
pub mod Stable
pub mod Ready
mod Tests
use postfixblocker.Prelude.{
  ℕ, ◌+◌, ◌≡◌, Bool, true, false, Option, none, some, List, [], ◌∷◌, ◌++◌, length, if◌then◌else◌,
  or_else,
}
use postfixblocker.Text.{Text, codes, is_empty, starts_with}
use postfixblocker.Exec.{
  Exn, Outcome, ok, raised, Exec, pure, lift, try_except, handle, continue, ◌>>=◌, ◌>>◌,
}
use postfixblocker.Db.Table.{lookup}

-- The environment variables: PYTEST_CURRENT_TEST, UM_DB_URL and UM_DB_PATH.
pub record Variables : Type 0 where
  pub current_test : Option Text
  pub um_db_url : Option Text
  pub um_db_path : Option Text

-- A variable that is set and not empty.
abbrev pub set_to : Option Text → Option Text
set_to none = none
set_to (some []) = none
set_to (some (c ∷ s)) = some (c ∷ s)

abbrev path_url : Text → Text
path_url path = if starts_with (codes "sqlite") path then path else codes "sqlite:///" ++ path

abbrev default_url : Option Text → Text
default_url none = codes "sqlite:///./um.db"
default_url (some test_key) = codes "sqlite:///:memory:"

abbrev url_of : Option Text → Option Text → Option Text → Text
url_of (some db_url) um_path test_key = db_url
url_of none (some um_path) test_key = path_url um_path
url_of none none test_key = default_url test_key

-- `_compute_um_db_url`.
pub compute_um_db_url : Variables → Text
compute_um_db_url v = url_of (set_to v.um_db_url) (set_to v.um_db_path) (set_to v.current_test)

-- The arguments of a call of `create_engine`, where they are given.
pub record EngineCall : Type 0 where
  pub url : Text
  pub pool_pre_ping : Bool
  pub pool_use_lifo : Bool
  pub pool_size : Option ℕ
  pub max_overflow : Option ℕ
  pub pool_recycle : Option ℕ
  pub check_same_thread : Option Bool

-- `get_engine`: the call for the value of BLOCKER_DB_URL.
pub get_engine : Option Text → EngineCall
get_engine blocker_db_url = record {
  url = or_else blocker_db_url (codes "ibm_db_sa://db2inst1:blockerpass@db2:50000/BLOCKER");
  pool_pre_ping = true;
  pool_use_lifo = true;
  pool_size = some 20;
  max_overflow = some 0;
  pool_recycle = some 3600;
  check_same_thread = none;
}

-- The call for the users' engine.
abbrev pub user_engine_call : Text → EngineCall
user_engine_call db_url = record {
  url = db_url;
  pool_pre_ping = true;
  pool_use_lifo = false;
  pool_size = none;
  max_overflow = none;
  pool_recycle = none;
  check_same_thread = if starts_with (codes "sqlite") db_url then some false else none;
}

-- `_UM_ENGINE`, `_UM_ENGINES`, the calls that made the engines so far, and the engines on which
-- `um_user` was created.
pub record Caches : Type 0 where
  pub um_engine : Option ℕ
  pub um_engines : List (Text × ℕ)
  pub made : List EngineCall
  pub with_table : List ℕ

-- How the calls outside end: `create_engine` for a URL, `get_user_table`, and CREATE TABLE on an
-- engine.
pub record Ends : Type 0 where
  pub refuses : Text → Option Exn
  pub user_table : Outcome (Unit {0})
  pub create_table : ℕ → Outcome (Unit {0})

module _ (ends : Ends) where
  abbrev make_unless : Option Exn → EngineCall → Exec Caches ℕ
  make_unless none call c = (ok (length c.made), record c { made = c.made ++ call ∷ [] })
  make_unless (some e) call c = (raised e, c)

  -- `create_engine`, which may raise for a URL.
  pub create_engine : EngineCall → Exec Caches ℕ
  create_engine call = make_unless (ends.refuses call.url) call

  abbrev created : Outcome (Unit {0}) → ℕ → Exec Caches (Unit {0})
  created (ok _) eng c = (ok tt, record c { with_table = eng ∷ c.with_table })
  created (raised e) eng c = (raised e, c)

  -- `_ensure_um_table_exists`: no exception is left.
  pub ensure_um_table_exists : ℕ → Exec Caches (Unit {0})
  ensure_um_table_exists eng =
      try_except
        (do lift ends.user_table; try_except (created (ends.create_table eng) eng) (λ e. pure tt))
        (λ e. pure tt)

  -- The engine is put into the cache of the test, or of the process.
  abbrev pub keep_engine : Option Text → ℕ → Exec Caches ℕ
  keep_engine none eng c = (ok eng, record c { um_engine = some eng })
  keep_engine (some key) eng c = (ok eng, record c { um_engines = (key, eng) ∷ c.um_engines })

  -- What the caches hold for the test, or for the process.
  abbrev pub cached : Option Text → Caches → Option ℕ
  cached none c = c.um_engine
  cached (some key) c = lookup c.um_engines key

  new_engine : Variables → Exec Caches ℕ
  new_engine v = do
    eng ← create_engine (user_engine_call (compute_um_db_url v))
    ensure_um_table_exists eng
    keep_engine (set_to v.current_test) eng

  abbrev or_new : Option ℕ → Variables → Exec Caches ℕ
  or_new none v = new_engine v
  or_new (some eng) v = pure eng

  pub get_user_engine : Variables → Exec Caches ℕ
  unfolding new_engine
  get_user_engine v c = or_new (cached (set_to v.current_test) c) v c

-- `app.config`: the engine and the flag `db_ready`; and the number of engines made.
pub record App : Type 0 where
  pub db_engine : Option ℕ
  pub db_ready : Bool
  pub made : ℕ

-- `get_engine()` where there is no engine yet; the outcome is that of `create_engine`.
abbrev engine_step : Option Exn → App → Outcome (Unit {0}) × App
engine_step (some e) a = (raised e, a)
engine_step none a = (ok tt, record a { db_engine = some a.made; made = 1 + a.made })

abbrev need_engine : Option Exn → Option ℕ → App → Outcome (Unit {0}) × App
need_engine refused none a = engine_step refused a
need_engine refused (some eng) a = (ok tt, a)

abbrev init_step : Option Exn → Exec App (Unit {0})
init_step none a = (ok tt, a)
init_step (some e) a = (raised e, a)

-- The attempt of `ensure_db_ready`, on how `create_engine` and `init_db` end.
unfoldable pub try_ready : Option Exn → Option Exn → Exec App Bool
try_ready refused failed =
    try_except
      (do
        (λ a. need_engine refused a.db_engine a)
        init_step failed
        (λ a. (ok true, record a { db_ready = true })))
      (λ e. pure false)

unfoldable pub ensure_db_ready : Option Exn → Option Exn → Exec App Bool
ensure_db_ready refused failed a = if a.db_ready then (ok true, a) else try_ready refused failed a
