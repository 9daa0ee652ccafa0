-- ===== src/Db/Admins.antt =====
-- postfix_blocker/db/admins.py: the table `um_user`. werkzeug's password hashing is a parameter; the
-- creation and update times are not modelled, since the program never reads them.
pub mod Laws
pub mod Passkey
use postfixblocker.Prelude.{
  ℕ, zero, suc, ◌≡◌, Bool, true, false, ◌&&◌, ◌||◌, Option, none, some, List, [], ◌∷◌,
  if◌then◌else◌, is_some,
}
use postfixblocker.Text.{Text, codes, is_empty}
use postfixblocker.Text.Decimal.{ℤ}
use postfixblocker.Exec.{Outcome, ok, raised, Exec, pure, try_except, handle, continue, ◌>>=◌, ◌>>◌}
use postfixblocker.Db.Table.{Table, transaction, upsert}

pub record Admin : Type 0 where
  pub password_hash : Option Text
  pub must_change_password : Bool
  pub webauthn_credential_id : Option Text
  pub webauthn_public_key : Option Text
  pub webauthn_sign_count : Option ℤ

-- werkzeug.security: `generate_password_hash` and `check_password_hash(hash, candidate)`.
pub record Hashing : Type 0 where
  pub generate : Text → Text
  pub check : Text → Text → Bool

-- The statement behind the existence probe of `seed_default_admin`.
abbrev pub has_rows : ℕ → Bool
has_rows zero = false
has_rows (suc n) = true

module _ (t : Table Admin) (hashing : Hashing) where
  open t use {Db, select, update, insert}

  -- The row that `seed_default_admin` inserts.
  abbrev pub default_admin : Text → Admin
  default_admin default_password = record {
    password_hash = some (hashing.generate default_password);
    must_change_password = true;
    webauthn_credential_id = none;
    webauthn_public_key = none;
    webauthn_sign_count = none;
  }

  -- `count` is `select(func.count())`, `driver_probe` the raw statement used where it raises.
  pub seed_default_admin :
      (Text → Exec Db ℕ) → (Text → Exec Db Bool) → Text → Text → Exec Db (Unit {0})
  seed_default_admin count driver_probe username default_password = transaction (do
    exists ←
        try_except (do n ← count username; pure (has_rows n))
          (λ _. try_except (driver_probe username) (λ _. pure false))
    if exists then pure tt else insert username (default_admin default_password))

  pub get_admin_by_username : Text → Exec Db (Option Admin)
  get_admin_by_username username = select username

  -- The row of a password for a new user.
  abbrev pub new_admin : Text → Bool → Admin
  new_admin pwd_hash must_change = record {
    password_hash = some pwd_hash;
    must_change_password = must_change;
    webauthn_credential_id = none;
    webauthn_public_key = none;
    webauthn_sign_count = none;
  }

  abbrev pub with_password : Text → Bool → Admin → Admin
  with_password pwd_hash must_change a = record a {
    password_hash = some pwd_hash;
    must_change_password = must_change;
  }

  pub set_admin_password : Text → Text → Bool → Exec Db (Unit {0})
  set_admin_password username new_password must_change =
      let pwd_hash = hashing.generate new_password in
      upsert t username (with_password pwd_hash must_change) (new_admin pwd_hash must_change)

  -- `if not admin or not admin.get('password_hash')`, then the check.
  abbrev pub password_matches : Option Admin → Text → Bool
  password_matches none candidate = false
  password_matches (some a) candidate = elim a.password_hash [
    | none ↦ false
    | some h ↦ if is_empty h then false else hashing.check h candidate
  ]

  pub check_admin_password : Text → Text → Exec Db Bool
  unfolding get_admin_by_username
  check_admin_password username candidate = do
    admin ← get_admin_by_username username
    pure (password_matches admin candidate)

  abbrev pub with_webauthn : Text → Text → ℤ → Admin → Admin
  with_webauthn credential_id public_key sign_count a = record a {
    webauthn_credential_id = some credential_id;
    webauthn_public_key = some public_key;
    webauthn_sign_count = some sign_count;
  }

  abbrev pub passkey_admin : Text → Text → ℤ → Admin
  passkey_admin credential_id public_key sign_count = record {
    password_hash = none;
    must_change_password = true;
    webauthn_credential_id = some credential_id;
    webauthn_public_key = some public_key;
    webauthn_sign_count = some sign_count;
  }

  pub set_admin_webauthn : Text → Text → Text → ℤ → Exec Db (Unit {0})
  set_admin_webauthn username credential_id public_key sign_count =
      upsert t username (with_webauthn credential_id public_key sign_count)
        (passkey_admin credential_id public_key sign_count)

  pub update_admin_sign_count : Text → ℤ → Exec Db (Unit {0})
  update_admin_sign_count username sign_count =
      transaction
        (do update username (λ a. record a { webauthn_sign_count = some sign_count }); pure tt)
