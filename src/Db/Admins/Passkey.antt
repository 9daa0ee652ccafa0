-- ===== src/Db/Admins/Passkey.antt =====
-- The passkey fields of an administrator.
use postfixblocker.Prelude.{◌≡◌, refl, ◌∙◌, some}
use postfixblocker.Text.{Text, ==_self}
use postfixblocker.Text.Decimal.{ℤ}
use postfixblocker.Exec.{ok}
use postfixblocker.Db.Table.{Table, IsTable, upserted, map_row, upsert_ok, upsert_row}
use postfixblocker.Db.Admins.{
  Admin, Hashing, with_webauthn, passkey_admin, set_admin_webauthn, update_admin_sign_count,
}

abbrev pub with_count : ℤ → Admin → Admin
with_count n a = record a { webauthn_sign_count = some n }

module _ (t : Table Admin) (laws : IsTable t) (hashing : Hashing) where
  open t use {Db}
  open laws use {row, update_ok, update_row}

  pub set_admin_webauthn-ok :
      (u c k : Text) (n : ℤ) (s : Db) → (set_admin_webauthn t hashing u c k n s).0 ≡ ok tt
  unfolding set_admin_webauthn
  set_admin_webauthn-ok u c k n s = upsert_ok t laws u _ _ s

  pub set_admin_webauthn-row :
      (u c k : Text) (n : ℤ) (s : Db)
      → row (set_admin_webauthn t hashing u c k n s).1 u
        ≡ some
            (upserted t (row s u) (with_webauthn t hashing c k n) (passkey_admin t hashing c k n))
  unfolding set_admin_webauthn
  set_admin_webauthn-row u c k n s = upsert_row t laws u _ _ s u ∙ rw ==_self refl

  pub update_admin_sign_count-ok :
      (u : Text) (n : ℤ) (s : Db) → (update_admin_sign_count t hashing u n s).0 ≡ ok tt
  unfolding update_admin_sign_count
  update_admin_sign_count-ok u n s = rw update_ok refl

  pub update_admin_sign_count-row :
      (u : Text) (n : ℤ) (s : Db)
      → row (update_admin_sign_count t hashing u n s).1 u ≡ map_row (with_count n) (row s u)
  unfolding update_admin_sign_count
  update_admin_sign_count-row u n s =
      rw update_ok (update_row u (with_count n) s u ∙ rw ==_self refl)
