-- ===== src/Db/Admins/Laws.antt =====
-- Passwords, passkeys and the default admin, on a database that answers.
use postfixblocker.Prelude.{
  ℕ, ◌≡◌, refl, Bool, false, Option, none, some, if◌then◌else◌, Option-cases, Bool-cases, inl, inr,
}
use postfixblocker.Text.{Text, ◌==◌, ==_iff, is_empty}
use postfixblocker.Exec.{ok, Exec}
use postfixblocker.Db.Table.{Table, IsTable, row_count, upserted, upsert_ok, upsert_row}
use postfixblocker.Db.Admins.{
  Admin, Hashing, default_admin, seed_default_admin, get_admin_by_username, new_admin,
  with_password, set_admin_password, password_matches, check_admin_password,
}

-- What the program relies on: a hash is not empty, and matches the password that it was made of and,
-- collisions apart, no other.
pub record IsHashing (h : Hashing) : Type 0 where
  pub not_empty : (p : Text) → is_empty (h.generate p) ≡ false
  pub check_generate : (p c : Text) → h.check (h.generate p) c ≡ (p == c)

-- The admin that is there, else the default one.
abbrev pub or_default : Table Admin → Hashing → Option Admin → Text → Option Admin
or_default t hashing none p = some (default_admin t hashing p)
or_default t hashing (some a) p = some a

module _ (t : Table Admin) (laws : IsTable t) (hashing : Hashing) where
  open t use {Db, insert}
  open laws use {row, select_lem, update_ok, update_row, insert_ok, insert_row}

  pub get_admin_lem : (u : Text) (s : Db) → get_admin_by_username t hashing u s ≡ (ok (row s u), s)
  unfolding get_admin_by_username
  get_admin_lem u s = select_lem u s

  pub check_admin_password_lem :
      (u c : Text) (s : Db)
      → check_admin_password t hashing u c s ≡ (ok (password_matches t hashing (row s u) c), s)
  unfolding check_admin_password
  check_admin_password_lem u c s = rw select_lem

  pub set_admin_password-ok :
      (u p : Text) (m : Bool) (s : Db) → (set_admin_password t hashing u p m s).0 ≡ ok tt
  unfolding set_admin_password
  set_admin_password-ok u p m s = upsert_ok t laws u _ _ s

  pub set_admin_password-row :
      (u p : Text) (m : Bool) (s : Db) (j : Text)
      → row (set_admin_password t hashing u p m s).1 j ≡ (
          if u == j
          then some (
              upserted t
                (row s u)
                (with_password t hashing (hashing.generate p) m)
                (new_admin t hashing (hashing.generate p) m))
          else row s j)
  unfolding set_admin_password
  set_admin_password-row u p m s j = upsert_row t laws u _ _ s j

  module _ (hash_laws : IsHashing hashing) where
    open hash_laws use {not_empty, check_generate}

    matches_new :
        (o : Option Admin) (p c : Text) (m : Bool)
        → password_matches t hashing
            (some (
              upserted t o
                (with_password t hashing (hashing.generate p) m)
                (new_admin t hashing (hashing.generate p) m)))
            c
          ≡ (p == c)
    matches_new none p c m = rw (not_empty, check_generate)
    matches_new (some a) p c m = rw (not_empty, check_generate)

    -- After a password is set for a user, exactly that password is accepted for the user, and what is
    -- accepted for any other user is what was accepted before.
    pub check-set_admin_password :
        (u p : Text) (m : Bool) (j c : Text) (s : Db)
        → (check_admin_password t hashing j c (set_admin_password t hashing u p m s).1).0
          ≡ (if u == j then ok (p == c) else (check_admin_password t hashing j c s).0)
    check-set_admin_password u p m j c s =
        rw (check_admin_password_lem, check_admin_password_lem, set_admin_password-row u p m s j)
          (elim (Bool-cases (u == j)) [ inl e ↦ rw (e, matches_new) | inr e ↦ rw e ])

  module _ (count : Text → Exec Db ℕ) (driver_probe : Text → Exec Db Bool)
      (count_lem : (k : Text) (s : Db) → count k s ≡ (ok (row_count (row s k)), s)) where
    -- Seeding keeps an existing admin as it is, inserts the default admin where there is none, with
    -- the flag that the password must be changed, and leaves every other user alone.
    pub seed_default_admin-row :
        (u p : Text) (s : Db) (j : Text)
        → ((seed_default_admin t hashing count driver_probe u p s).0 ≡ ok tt)
          × (row (seed_default_admin t hashing count driver_probe u p s).1 j
              ≡ (if u == j then or_default t hashing (row s u) p else row s j))
    unfolding seed_default_admin
    seed_default_admin-row u p s j = rw count_lem (elim (Option-cases (row s u)) [
      | inl e ↦ rw (e, insert_ok u (default_admin t hashing p) s e) (refl, insert_row u _ s j e)
      | inr (a, e) ↦ rw e (
        refl,
        elim (Bool-cases (u == j)) [
          | inl same ↦ rw (same, ← (==_iff u j).0 same, e)
          | inr apart ↦ rw apart
        ],
      )
    ])
