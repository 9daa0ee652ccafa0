-- ===== src/Db/Schema.antt =====
-- postfix_blocker/db/schema.py: the tables as data, and the module's variables, which the first call
-- of a getter fills. A `MetaData` is the number of the call that made it.
pub mod Loaded
mod Tests
use postfixblocker.Prelude.{
  ℕ, ◌+◌, ◌≡◌, Bool, true, false, Option, none, some, List, [], ◌∷◌, ◌&&◌, if◌then◌else◌, is_some,
}
use postfixblocker.Text.{Text, codes}
use postfixblocker.Exec.{
  Exn, other, Outcome, ok, raised, Exec, pure, raise, or_raise, get_state, continue, ◌>>=◌, ◌>>◌,
}

-- The types of columns; a string has its length.
pub data ColumnType : Type 0 where
  integer boolean date_time : ColumnType
  string : ℕ → ColumnType

-- The value of `server_default`.
pub data ServerDefault : Type 0 where
  literal : Text → ServerDefault
  current_timestamp : ServerDefault

-- `Column`, with the keywords that are given; `onupdate` is whether the time is set on an update.
pub record Column : Type 0 where
  pub name : Text
  pub column_type : ColumnType
  pub primary_key : Bool
  pub autoincrement : Option Bool
  pub nullable : Option Bool
  pub unique : Option Bool
  pub default : Option Bool
  pub server_default : Option ServerDefault
  pub onupdate : Bool
  pub quote : Option Bool

-- A table with the `MetaData` that it belongs to.
pub record SchemaTable : Type 0 where
  pub name : Text
  pub metadata : ℕ
  pub columns : List Column

abbrev pub column : Text → ColumnType → Column
column name column_type = record {
  name = name;
  column_type = column_type;
  primary_key = false;
  autoincrement = none;
  nullable = none;
  unique = none;
  default = none;
  server_default = none;
  onupdate = false;
  quote = none;
}

abbrev id_column : Column
id_column = record (column (codes "id") integer) { primary_key = true; autoincrement = some true }

abbrev updated_at_column : Column
updated_at_column = record (column (codes "updated_at") date_time) {
  server_default = some current_timestamp;
  onupdate = true;
}

abbrev pub blocked_columns : List Column
blocked_columns =
    id_column
    ∷ record (column (codes "pattern") (string 255)) { nullable = some false }
    ∷ record (column (codes "is_regex") boolean) { nullable = some false; default = some false }
    ∷ record (column (codes "test_mode") boolean) {
      nullable = some false;
      server_default = some (literal (codes "1"));
    }
    ∷ updated_at_column
    ∷ []

abbrev pub props_columns : List Column
props_columns =
    record (column (codes "key") (string 1024)) { primary_key = true; quote = some false }
    ∷ record (column (codes "value") (string 1024)) { quote = some false }
    ∷ column (codes "update_ts") date_time
    ∷ []

-- The columns of `admins`, and those of `um_user`.
abbrev pub user_columns : List Column
user_columns =
    id_column
    ∷ record (column (codes "username") (string 255)) { nullable = some false; unique = some true }
    ∷ record (column (codes "password_hash") (string 255)) { nullable = some true }
    ∷ record (column (codes "must_change_password") boolean) {
      nullable = some false;
      server_default = some (literal (codes "1"));
    }
    ∷ record (column (codes "webauthn_credential_id") (string 1024)) { nullable = some true }
    ∷ record (column (codes "webauthn_public_key") (string 4096)) { nullable = some true }
    ∷ record (column (codes "webauthn_sign_count") integer) { nullable = some true }
    ∷ record (column (codes "created_at") date_time) { server_default = some current_timestamp }
    ∷ updated_at_column
    ∷ []

-- The variables of the module, and how many times `MetaData()` was called.
pub record Variables : Type 0 where
  pub metadata : Option ℕ
  pub blocked_table : Option SchemaTable
  pub props_table : Option SchemaTable
  pub admins_table : Option SchemaTable
  pub user_table : Option SchemaTable
  pub made : ℕ

abbrev pub not_loaded : Variables
not_loaded = record {
  metadata = none;
  blocked_table = none;
  props_table = none;
  admins_table = none;
  user_table = none;
  made = 0;
}

-- How the five constructors of one load end.
pub record Constructors : Type 0 where
  pub new_metadata : Outcome (Unit {0})
  pub new_table : Text → Outcome (Unit {0})

abbrev pub is_loaded : Variables → Bool
is_loaded v =
    is_some v.metadata
    && is_some v.blocked_table
    && is_some v.props_table
    && is_some v.admins_table
    && is_some v.user_table

abbrev set_metadata : Outcome (Unit {0}) → Exec Variables ℕ
set_metadata (ok _) v = (ok v.made, record v { metadata = some v.made; made = 1 + v.made })
set_metadata (raised e) v = (raised e, v)

-- `Table(name, _metadata, …)`, and the assignment of the result.
abbrev new_table :
    Outcome (Unit {0})
    → Text
    → List Column
    → (SchemaTable → Variables → Variables)
    → ℕ
    → Exec Variables (Unit {0})
new_table (ok _) name columns set metadata v =
    (ok tt, set (record { name = name; metadata = metadata; columns = columns }) v)
new_table (raised e) name columns set metadata v = (raised e, v)

-- The rest of `_ensure_loaded`, where something is missing, on how its constructors end.
pub load :
    Outcome (Unit {0})
    → Outcome (Unit {0})
    → Outcome (Unit {0})
    → Outcome (Unit {0})
    → Outcome (Unit {0})
    → Exec Variables (Unit {0})
load made_metadata made_blocked made_props made_admins made_user = do
  metadata ← set_metadata made_metadata
  new_table made_blocked (codes "blocked_addresses") blocked_columns
      (λ table v. record v { blocked_table = some table }) metadata
  new_table made_props (codes "cris_props") props_columns
      (λ table v. record v { props_table = some table }) metadata
  new_table made_admins (codes "admins") user_columns
      (λ table v. record v { admins_table = some table }) metadata
  new_table made_user (codes "um_user") user_columns
      (λ table v. record v { user_table = some table }) metadata

module _ (make : Constructors) where
  pub ensure_loaded : Exec Variables (Unit {0})
  ensure_loaded v =
      if is_loaded v
      then (ok tt, v)
      else load make.new_metadata (make.new_table (codes "blocked_addresses"))
          (make.new_table (codes "cris_props")) (make.new_table (codes "admins"))
          (make.new_table (codes "um_user")) v

  abbrev not_initialized : Text → Exn
  not_initialized what = record { kind = other; message = what }

  pub get_blocked_table : Exec Variables SchemaTable
  get_blocked_table = do
    ensure_loaded
    v ← get_state
    or_raise v.blocked_table (not_initialized (codes "blocked_addresses table not initialized"))

  pub get_props_table : Exec Variables SchemaTable
  get_props_table = do
    ensure_loaded
    v ← get_state
    or_raise v.props_table (not_initialized (codes "cris_props table not initialized"))

  pub get_admins_table : Exec Variables SchemaTable
  get_admins_table = do
    ensure_loaded
    v ← get_state
    or_raise v.admins_table (not_initialized (codes "admins table not initialized"))

  pub get_user_table : Exec Variables SchemaTable
  get_user_table = do
    ensure_loaded
    v ← get_state
    or_raise v.user_table (not_initialized (codes "um_user table not initialized"))

  pub get_metadata : Exec Variables ℕ
  get_metadata = do
    ensure_loaded
    v ← get_state
    or_raise v.metadata (not_initialized (codes "metadata not initialized"))
