-- ===== src/Web/App/Example.antt =====
-- A whole deployment in memory: its main database holds three tables.
use postfixblocker.Prelude.{ℕ, refl, Bool, true, false, Option, none, some, List, [], ◌∷◌}
use postfixblocker.Text.{Text, codes, ◌==◌}
use postfixblocker.Exec.{Exn, other, ok, raised, Exec}
use postfixblocker.Postfix.Maps.{written}
use postfixblocker.Db.Table.{Table, IsTable, row_count, lookup, memory, memory-IsTable}
use postfixblocker.Db.Props.{Driver}
use postfixblocker.Db.Admins.{Admin, Hashing}
use postfixblocker.Db.Admins.Laws.{IsHashing}
use postfixblocker.Db.Db2.{Catalog}
use postfixblocker.Db.Engine.Ready.{new_app}
use postfixblocker.Db.Migrations.{Schema}
use postfixblocker.Web.Json.{obj, end}
use postfixblocker.Web.Auth.{Env}
use postfixblocker.Web.Passkeys.{WebAuthn}
use postfixblocker.Web.Addresses.Laws.{Address}
use postfixblocker.Web.Addresses.Memory.{table}
use postfixblocker.Web.App.Process.{Deployment, Conditions, State}
use postfixblocker.Web.App.Apart.{IsApart}

-- The main database.
pub record Main : Type 0 where
  pub rows : List (Text × Option Text)
  pub users : List (Text × Admin)
  pub addresses : List Address

abbrev pub on_rows : {A : Type 0} → Exec (List (Text × Option Text)) A → Exec Main A
on_rows m d = let (r, rows) = m d.rows in (r, record d { rows = rows })

abbrev pub props : Table (Option Text)
props = record {
  Db = Main;
  select = λ k. on_rows (memory.select k);
  update = λ k f. on_rows (memory.update k f);
  insert = λ k r. on_rows (memory.insert k r);
}

abbrev pub props-IsTable : IsTable props
props-IsTable = record {
  row = λ d. lookup d.rows;
  select_lem = λ k d. refl;
  update_ok = λ k f d. refl;
  update_row = λ k f d. memory-IsTable.update_row k f d.rows;
  insert_ok = λ k r d. memory-IsTable.insert_ok k r d.rows;
  insert_row = λ k r d. memory-IsTable.insert_row k r d.rows;
}

abbrev pub refused : Exn
refused = record { kind = other; message = codes "refused" }

abbrev pub driver : Driver props
driver = record {
  count = λ k d. (ok (row_count (lookup d.rows k)), d);
  driver_probe = λ k d. (raised refused, d);
  db2_probe = λ k d. (raised refused, d);
  driver_ts_insert = λ k v d. (raised refused, d);
  driver_insert = λ k v d. (raised refused, d);
  db2_ts_insert = λ k v d. (raised refused, d);
  db2_insert = λ k v d. (raised refused, d);
}

abbrev pub catalog : Catalog Main
catalog = record {
  tablespace = λ d. raised refused;
  bufferpool = λ d. raised refused;
  tables = λ d. raised refused;
  card = λ sch tab d. raised refused;
  tablespace_count = λ d. raised refused;
  execute = λ s d. (raised refused, d);
}

abbrev pub schema : Schema Main
schema = record {
  create = λ created first d. (ok tt, d);
  columns = λ d. ok (codes "test_mode" ∷ []);
  execute = λ s d. (ok tt, d);
}

abbrev pub marked : Hashing
marked = record { generate = λ p. 1 ∷ p; check = λ h c. h == (1 ∷ c) }

pub marked-IsHashing : IsHashing marked
unfolding ◌==◌
marked-IsHashing = record { not_empty = λ p. refl; check_generate = λ p c. refl }

abbrev pub count_rows : Text → Exec (List (Text × Admin)) ℕ
count_rows k l = (ok (row_count (lookup l k)), l)

abbrev pub no_probe : Text → Exec (List (Text × Admin)) Bool
no_probe k l = (ok false, l)

abbrev pub users_table : Table Admin
users_table = memory

abbrev pub env : Env
env = record { api_auth_required = some (codes "1"); admin_username = none }

abbrev pub no_passkeys : WebAuthn
no_passkeys = record {
  Options = Text;
  Credential = Text;
  registration_options = none;
  authentication_options = none;
  challenge = λ o. ok o;
  options_to_json = λ o. obj end;
  registration_credential = none;
  authentication_credential = none;
  verify_registration = none;
  verify_authentication = none;
}

abbrev pub deployment : Deployment
deployment = record {
  env = env;
  props = props;
  driver = driver;
  catalog = catalog;
  schema = schema;
  users = memory;
  hashing = marked;
  count = count_rows;
  driver_probe = no_probe;
  create_user_table = λ l. (ok tt, l);
  main_users = record { get = λ d. d.users; put = λ l d. record d { users = l } };
  blocked = table;
  main_blocked = record { get = λ d. d.addresses; put = λ l d. record d { addresses = l } };
  queries = record {
    connect = λ l. ok tt;
    all = λ l. ok [];
    total = λ fs l. ok none;
    page = λ fs c descending bounds l. ok [];
  };
  is_db2 = false;
  wa = no_passkeys;
  b64 = record { encode = λ s. s; decode = λ s. ok s };
  site = record { rp_id = none; origin = none; admin_user_id = none; host = none };
  attribute = λ name. none;
  repr = λ v. [];
  test_routes = true;
  test_reset_enable = none;
  tests = record {
    Db = Unit;
    delete_blocked = λ l. (ok 0, l);
    delete_props = λ l. (ok 0, l);
    insert = λ p r m l. (ok tt, l);
    select_blocked = λ l. ok [];
    select_props = λ l. ok [];
  };
  main_tests = record { get = λ d. tt; put = λ l d. d };
  files = record { size = λ path. none; read = λ path. raised refused };
  paths = record {
    api_config = none;
    api_env = none;
    blocker_config = none;
    blocker_env = none;
    mail_log_file = none;
  };
}

pub deployment-IsApart : IsApart deployment props-IsTable
deployment-IsApart = record {
  users_put_get = λ m. refl;
  blocked_put_get = λ m. refl;
  blocked_users = λ u m. refl;
  props_users = λ u m k. refl;
}

abbrev pub admin : Text
admin = codes "admin"

abbrev pub set_admin : Admin
set_admin = record {
  password_hash = some (1 ∷ codes "secret");
  must_change_password = false;
  webauthn_credential_id = none;
  webauthn_public_key = none;
  webauthn_sign_count = none;
}

-- A process that has just started, and a client that is not logged in.
abbrev pub started : State deployment
started = record {
  session = record {
    admin_user = none;
    pending_username = none;
    webauthn_current_challenge = none;
  };
  um_engine = none;
  user_engine = (admin, set_admin) ∷ [];
  config = new_app;
  main = record { rows = []; users = []; addresses = [] };
  executed = [];
  signals = [];
  root_level = none;
  main_cf = none;
}

abbrev pub fair : Conditions
fair = record {
  refused = none;
  user_engine = ok tt;
  pid = ok (codes "7");
  readable = true;
  outcome = written;
}
