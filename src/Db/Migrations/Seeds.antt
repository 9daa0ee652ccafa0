-- ===== src/Db/Migrations/Seeds.antt =====
-- What `init_db` leaves in the two databases.
use postfixblocker.Prelude.{ℕ, ◌≡◌, refl, ◌∙◌, inl, inr, Bool, true, Option, none, some, Bool-cases}
use postfixblocker.Text.{Text, codes, ==_self, contains, lower}
use postfixblocker.Exec.{Outcome, ok, Exec}
use postfixblocker.Db.Table.{Table, IsTable, row_count, lookup}
use postfixblocker.Db.Props.{Driver, default_prop_values}
use postfixblocker.Db.Props.Seed.{first_of, seed_default_props-row}
use postfixblocker.Db.Admins.{Admin, Hashing}
use postfixblocker.Db.Admins.Laws.{or_default, seed_default_admin-row}
use postfixblocker.Db.Db2.{Catalog, init_db2}
use postfixblocker.Db.Db2.Trace.{init_db2-storage}
use postfixblocker.Db.Migrations.{
  Schema, World, create_users, seed_admin, init_user_db_and_seed, bootstrap_db2, seed_both, init_db,
}
use postfixblocker.Db.Migrations.TestMode.{unit_outcome}

module _ (t : Table (Option Text)) (driver : Driver t) (catalog : Catalog t.Db)
    (schema : Schema t.Db) (u : Table Admin) (hashing : Hashing) (count : Text → Exec u.Db ℕ)
    (driver_probe : Text → Exec u.Db Bool) (create_user_table : Exec u.Db (Unit {0}))
    (admin_username : Text) where
  abbrev pub Server : Type 0
  Server =
      World t driver catalog schema u hashing count driver_probe create_user_table admin_username

  abbrev pub start : Bool → Outcome (Unit {0}) → Exec Server (Unit {0})
  start =
      init_db t driver catalog schema u hashing count driver_probe create_user_table admin_username

  abbrev users : Exec u.Db (Unit {0})
  users =
      create_users t driver catalog schema u hashing count driver_probe create_user_table
        admin_username

  abbrev admin : Exec u.Db (Unit {0})
  admin =
      seed_admin t driver catalog schema u hashing count driver_probe create_user_table
        admin_username

  create_users-ok : (d : u.Db) → (users d).0 ≡ ok tt
  unfolding create_users
  create_users-ok d = elim (unit_outcome (create_user_table d).0) [
    | inl e ↦ rw e refl
    | inr (x, e) ↦ rw e (elim (Bool-cases (contains (codes "already exists") (lower x.message))) [
      | inl f ↦ rw f refl
      | inr f ↦ rw f (elim (unit_outcome (create_user_table (create_user_table d).1).0) [
        | inl g ↦ rw g refl
        | inr (y, g) ↦ rw g refl
      ])
    ])
  ]

  module _ (laws : IsTable t) (user_laws : IsTable u)
      (props_count : (k : Text) (s : t.Db)
        → driver.count k s ≡ (ok (row_count (IsTable.row laws s k)), s))
      (user_count : (k : Text) (s : u.Db)
        → count k s ≡ (ok (row_count (IsTable.row user_laws s k)), s)) where
    -- The main database behind the Db2 bootstrap.
    abbrev pub bootstrapped : Server → t.Db
    bootstrapped w = (init_db2 catalog (record { db = w.db; executed = w.executed })).1.db

    or_default-some :
        (o : Option Admin) (p : Text) → (a : Admin) × (or_default u hashing o p ≡ some a)
    or_default-some none p = (_, refl)
    or_default-some (some a) p = (a, refl)

    seed_admin-row :
        (d : u.Db)
        → ((admin d).0 ≡ ok tt)
          × ((a : Admin) × (IsTable.row user_laws (admin d).1 admin_username ≡ some a))
    unfolding seed_admin
    seed_admin-row d =
        let (done, there) =
          seed_default_admin-row u user_laws hashing count driver_probe user_count admin_username
            (codes "postfixblocker") d admin_username in
        let (a, e) =
          or_default-some (IsTable.row user_laws d admin_username) (codes "postfixblocker") in
        rw done (refl, (a, there ∙ rw (==_self admin_username) e))

    -- On databases that answer, `init_db` for Db2 returns, whatever the statements of the bootstrap and
    -- the creation of the users' table do: each property then has the value that it had behind the
    -- bootstrap, or else its default, and there is an administrator.
    pub init_db-seeds :
        (w : Server)
        → ((start true (ok tt) w).0 ≡ ok tt)
          × ((j : Text)
              → IsTable.row laws (start true (ok tt) w).1.db j
                ≡ first_of (IsTable.row laws (bootstrapped w) j) (lookup default_prop_values j))
          × ((a : Admin) × (IsTable.row user_laws (start true (ok tt) w).1.um admin_username
                ≡ some a))
    unfolding init_db seed_both bootstrap_db2 init_user_db_and_seed
    init_db-seeds w =
        let (l, done, rows) =
          seed_default_props-row t laws driver true props_count (bootstrapped w) in
        let (seeded, there) = seed_admin-row (users w.um).1 in
        rw
          (
            (init_db2-storage catalog (record { db = w.db; executed = w.executed })).0,
            done,
            create_users-ok w.um,
            seeded,
          )
          (refl, rows, there)
