-- ===== src/Db/Props/Tests.antt =====
-- Runs on a table in memory, and the theorems at them.
use postfixblocker.Prelude.{◌≡◌, refl, true, Option, some, List, [], ◌∷◌}
use postfixblocker.Text.{Text, codes}
use postfixblocker.Exec.{Exn, other, ok, raised}
use postfixblocker.Db.Table.{Table, row_count, lookup, memory, memory-IsTable}
use postfixblocker.Db.Props.{Driver, api, log_key, default_prop_values, seed_default_props}
use postfixblocker.Db.Props.Seed.{first_of, seed_default_props-row}

abbrev props : Table (Option Text)
props = memory

abbrev one_row : List (Text × Option Text)
one_row = (log_key api, some (codes "DEBUG")) ∷ []

abbrev offline : Exn
offline = record { kind = other; message = codes "offline" }

-- A driver whose raw statements all fail.
abbrev driver : Driver props
driver = record {
  count = λ k l. (ok (row_count (lookup l k)), l);
  driver_probe = λ k l. (raised offline, l);
  db2_probe = λ k l. (raised offline, l);
  driver_ts_insert = λ k v l. (raised offline, l);
  driver_insert = λ k v l. (raised offline, l);
  db2_ts_insert = λ k v l. (raised offline, l);
  db2_insert = λ k v l. (raised offline, l);
}

seed_default_props-row_example :
    (l : List Text) × ((seed_default_props props driver true one_row).0 ≡ ok l)
    × ((j : Text)
        → lookup (seed_default_props props driver true one_row).1 j
          ≡ first_of (lookup one_row j) (lookup default_prop_values j))
seed_default_props-row_example =
    seed_default_props-row props memory-IsTable driver true (λ k s. refl) one_row
