-- ===== src/Db/Migrations.antt =====
-- `init_db` of postfix_blocker/db/migrations.py: the Db2 bootstrap of Db.Db2 or the part for other
-- dialects, then the seeding of the properties and of the user database.
pub mod TestMode
pub mod Seeds
mod Tests
use postfixblocker.Prelude.{
  ℕ, ◌≡◌, Bool, true, false, not, ◌||◌, Option, none, some, List, [], ◌∷◌, any, if◌then◌else◌,
}
use postfixblocker.Text.{Text, codes, ◌==◌, lower, contains}
use postfixblocker.Exec.{
  Exn, Outcome, ok, raised, Exec, pure, get_state, try_except, handle, continue, ◌>>=◌, ◌>>◌,
}
use postfixblocker.Db.Table.{Table, transaction}
use postfixblocker.Db.Props.{Driver, seed_default_props}
use postfixblocker.Db.Admins.{Admin, Hashing, seed_default_admin}
use postfixblocker.Db.Db2.{Statement, Catalog, init_db2}

-- The two tables of the generic part.
pub data Created : Type 0 where
  blocked_addresses cris_props : Created

-- What the generic part asks of the database: CREATE TABLE with `checkfirst` or without, the column
-- names of `blocked_addresses`, and a statement.
pub record Schema (Db : Type 0) : Type 0 where
  pub create : Created → Bool → Exec Db (Unit {0})
  pub columns : Db → Outcome (List Text)
  pub execute : Text → Exec Db (Unit {0})

unfoldable pub add_boolean : Text
add_boolean =
    codes "ALTER TABLE blocked_addresses ADD COLUMN test_mode BOOLEAN NOT NULL DEFAULT TRUE"

unfoldable pub add_smallint : Text
add_smallint =
    codes "ALTER TABLE blocked_addresses ADD COLUMN test_mode SMALLINT NOT NULL DEFAULT 1"

unfoldable pub set_one : Text
set_one = codes "UPDATE blocked_addresses SET test_mode = 1 WHERE test_mode IS NULL"

unfoldable pub set_true : Text
set_true = codes "UPDATE blocked_addresses SET test_mode = TRUE WHERE test_mode IS NULL"

-- The messages for a table that is there already.
unfoldable pub is_existing : Exn → Bool
is_existing e =
    let msg = lower e.message in
    contains (codes "already exists") msg
    || contains (codes "sql0601n") msg
    || contains (codes "object to be created is identical to the existing name") msg

module _ {Db : Type 0} (schema : Schema Db) where
  unfoldable pub safe_create : Created → Exec Db (Unit {0})
  safe_create table =
      try_except (schema.create table false)
        (λ e. if is_existing e then pure tt else schema.create table true)

  abbrev pub names_test_mode : Outcome (List Text) → Bool
  names_test_mode (raised e) = false
  names_test_mode (ok cols) = any (λ name. lower name == codes "test_mode") cols

  pub add_column : Exec Db (Unit {0})
  add_column = try_except (schema.execute add_boolean) (λ e. schema.execute add_smallint)

  pub normalize_nulls : Exec Db (Unit {0})
  normalize_nulls =
      try_except (schema.execute set_one)
        (λ e. try_except (schema.execute set_true) (λ exc. pure tt))

  -- The column `test_mode` is added where the inspector does not list it.
  pub ensure_test_mode : Exec Db (Unit {0})
  ensure_test_mode d =
      if names_test_mode (schema.columns d)
      then (ok tt, d)
      else transaction (do add_column; normalize_nulls) d

module _ (t : Table (Option Text)) (driver : Driver t) (catalog : Catalog t.Db)
    (schema : Schema t.Db) (u : Table Admin) (hashing : Hashing) (count : Text → Exec u.Db ℕ)
    (driver_probe : Text → Exec u.Db Bool) (create_user_table : Exec u.Db (Unit {0}))
    (admin_username : Text) where
  -- The main database, that of `get_user_engine`, and the Db2 statements executed.
  pub record World : Type 0 where
    pub db : t.Db
    pub um : u.Db
    pub executed : List Statement

  abbrev pub on_db : {A : Type 0} → Exec t.Db A → Exec World A
  on_db m w = let (r, d) = m w.db in (r, record w { db = d })

  abbrev pub on_um : {A : Type 0} → Exec u.Db A → Exec World A
  on_um m w = let (r, d) = m w.um in (r, record w { um = d })

  -- CREATE TABLE for the users, tried again unless the table is there; no exception is left.
  pub create_users : Exec u.Db (Unit {0})
  create_users = try_except create_user_table (λ e.
      if contains (codes "already exists") (lower e.message)
      then pure tt
      else try_except create_user_table (λ exc. pure tt))

  pub seed_admin : Exec u.Db (Unit {0})
  seed_admin =
      try_except
        (seed_default_admin u hashing count driver_probe admin_username (codes "postfixblocker"))
        (λ e. pure tt)

  -- `_init_user_db_and_seed`, on how `get_user_engine` ends.
  pub init_user_db_and_seed : Outcome (Unit {0}) → Exec World (Unit {0})
  init_user_db_and_seed (raised e) w = (ok tt, w)
  init_user_db_and_seed (ok _) w = on_um (do create_users; seed_admin) w

  pub bootstrap_db2 : Exec World (Unit {0})
  bootstrap_db2 w =
      let (r, after) = init_db2 catalog (record { db = w.db; executed = w.executed }) in
      (r, record w { db = after.db; executed = after.executed })

  -- Both parts end with these two calls; the generic one goes on to the column.
  pub seed_both : Bool → Outcome (Unit {0}) → Exec World (Unit {0})
  seed_both is_db2 engine = do
    on_db (seed_default_props t driver is_db2)
    init_user_db_and_seed engine

  unfoldable pub init_db : Bool → Outcome (Unit {0}) → Exec World (Unit {0})
  init_db true engine = do bootstrap_db2; seed_both true engine
  init_db false engine = do
    on_db (safe_create schema blocked_addresses)
    on_db (safe_create schema cris_props)
    seed_both false engine
    on_db (ensure_test_mode schema)
