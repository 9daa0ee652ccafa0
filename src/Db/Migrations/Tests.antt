-- ===== src/Db/Migrations/Tests.antt =====
-- The migrations on tables in memory, on a database that knows no BOOLEAN.
use postfixblocker.Prelude.{
  ℕ, ◌≡◌, refl, ◌⊎◌, Bool, true, false, Option, some, List, [], ◌∷◌, if◌then◌else◌,
}
use postfixblocker.Text.{Text, codes, ◌==◌, lower}
use postfixblocker.Exec.{Exn, other, ok, raised, Exec}
use postfixblocker.Db.Table.{Table, row_count, lookup, memory, memory-IsTable}
use postfixblocker.Db.Props.{Driver, default_prop_values}
use postfixblocker.Db.Props.Seed.{first_of}
use postfixblocker.Db.Admins.{Admin, Hashing}
use postfixblocker.Db.Db2.{Catalog}
use postfixblocker.Db.Migrations.{Schema, add_boolean, add_smallint, set_one, set_true}
use postfixblocker.Db.Migrations.TestMode.{
  IsSchema, IsMigrated, IsRefused, ensure_test_mode-IsMigrated,
}
use postfixblocker.Db.Migrations.Seeds.{Server, start, bootstrapped, init_db-seeds}

abbrev refusal : Exn
refusal = record { kind = other; message = codes "syntax error" }

-- The database is the list of the columns.
abbrev schema_step : Text → Exec (List Text) (Unit {0})
schema_step s d =
    if s == add_boolean
    then (raised refusal, d)
    else if s == add_smallint
    then (ok tt, codes "test_mode" ∷ d)
    else (ok tt, d)

abbrev columns_schema : Schema (List Text)
columns_schema = record {
  create = λ table first d. (ok tt, d);
  columns = λ d. ok d;
  execute = schema_step;
}

columns_schema-IsSchema : IsSchema columns_schema
unfolding ◌==◌ add_boolean add_smallint set_one set_true lower
columns_schema-IsSchema = record {
  add_boolean_lem = λ d h. cc;
  add_smallint_lem = λ d h. refl;
  set_one_lem = λ d. refl;
  set_true_lem = λ d. refl;
}

ensure_test_mode-IsMigrated_example :
    IsMigrated columns_schema columns_schema-IsSchema (codes "pattern" ∷ [])
    ⊎ IsRefused columns_schema columns_schema-IsSchema (codes "pattern" ∷ [])
ensure_test_mode-IsMigrated_example =
    ensure_test_mode-IsMigrated columns_schema columns_schema-IsSchema (codes "pattern" ∷ [])

abbrev props : Table (Option Text)
props = memory

abbrev users : Table Admin
users = memory

abbrev driver : Driver props
driver = record {
  count = λ k l. (ok (row_count (lookup l k)), l);
  driver_probe = λ k l. (raised refusal, l);
  db2_probe = λ k l. (raised refusal, l);
  driver_ts_insert = λ k v l. (raised refusal, l);
  driver_insert = λ k v l. (raised refusal, l);
  db2_ts_insert = λ k v l. (raised refusal, l);
  db2_insert = λ k v l. (raised refusal, l);
}

abbrev catalog : Catalog (List (Text × Option Text))
catalog = record {
  tablespace = λ d. raised refusal;
  bufferpool = λ d. raised refusal;
  tables = λ d. raised refusal;
  card = λ sch tab d. raised refusal;
  tablespace_count = λ d. raised refusal;
  execute = λ s d. (raised refusal, d);
}

abbrev schema : Schema (List (Text × Option Text))
schema = record {
  create = λ table first d. (ok tt, d);
  columns = λ d. ok (codes "test_mode" ∷ []);
  execute = λ s d. (ok tt, d);
}

abbrev marked : Hashing
marked = record { generate = λ p. 1 ∷ p; check = λ h c. h == (1 ∷ c) }

abbrev count_rows : Text → Exec (List (Text × Admin)) ℕ
count_rows k l = (ok (row_count (lookup l k)), l)

abbrev no_probe : Text → Exec (List (Text × Admin)) Bool
no_probe k l = (ok false, l)

abbrev no_create : Exec (List (Text × Admin)) (Unit {0})
no_create l = (raised refusal, l)

abbrev empty :
    Server props driver catalog schema users marked count_rows no_probe no_create (codes "admin")
empty = record { db = []; um = []; executed = [] }

init_db-seeds_example :
    ((start props driver catalog schema users marked count_rows no_probe no_create
        (codes "admin")
        true
        (ok tt)
        empty).0
      ≡ ok tt)
    × ((j : Text)
        → lookup
            (start props driver catalog schema users marked count_rows no_probe no_create
              (codes "admin")
              true
              (ok tt)
              empty).1.db
            j
          ≡ first_of
              (lookup
                (bootstrapped props driver catalog schema users marked count_rows no_probe no_create
                  (codes "admin")
                  memory-IsTable
                  memory-IsTable
                  (λ k s. refl)
                  (λ k s. refl)
                  empty)
                j)
              (lookup default_prop_values j))
    × ((a : Admin) × (lookup
            (start props driver catalog schema users marked count_rows no_probe no_create
              (codes "admin")
              true
              (ok tt)
              empty).1.um
            (codes "admin")
          ≡ some a))
init_db-seeds_example =
    init_db-seeds props driver catalog schema users marked count_rows no_probe no_create
      (codes "admin") memory-IsTable memory-IsTable (λ k s. refl) (λ k s. refl) empty
