-- ===== src/Web/Auth/Tests.antt =====
-- The theorems at requests to a server with a table in memory.
use postfixblocker.Prelude.{
  ℕ, ◌≡◌, refl, Bool, false, Option, none, some, List, [], ◌∷◌, if◌then◌else◌,
}
use postfixblocker.Text.{Text, codes, ◌==◌, strip, is_space}
use postfixblocker.Exec.{Exec, Outcome, ok}
use postfixblocker.Db.Table.{Table, row_count, lookup, memory, memory-IsTable}
use postfixblocker.Db.Admins.{Admin, Hashing, check_admin_password, password_matches}
use postfixblocker.Db.Admins.Laws.{IsHashing}
use postfixblocker.Web.Json.{get_field, stripped_or, Fields, str, field, end}
use postfixblocker.Web.Http.{Response, status}
use postfixblocker.Web.Auth.{Env, World, must_change, um_db}
use postfixblocker.Web.Auth.Login.{login, session_after}
use postfixblocker.Web.Auth.Accounts.{account, password_login-decides}
use postfixblocker.Web.Auth.Change.{
  change, password_change_without_old, IsDenied, password_change-decides,
}

abbrev users : Table Admin
users = memory

abbrev marked : Hashing
marked = record { generate = λ p. 1 ∷ p; check = λ h c. h == (1 ∷ c) }

marked-IsHashing : IsHashing marked
unfolding ◌==◌
marked-IsHashing = record { not_empty = λ p. refl; check_generate = λ p c. refl }

abbrev count_rows : Text → Exec (List (Text × Admin)) ℕ
count_rows k l = (ok (row_count (lookup l k)), l)

abbrev no_probe : Text → Exec (List (Text × Admin)) Bool
no_probe k l = (ok false, l)

abbrev env : Env
env = record { api_auth_required = some (codes "1"); admin_username = none }

abbrev admin : Text
admin = codes "admin"

-- An admin whose password is `secret`.
abbrev set_admin : Admin
set_admin = record {
  password_hash = some (1 ∷ codes "secret");
  must_change_password = false;
  webauthn_credential_id = none;
  webauthn_public_key = none;
  webauthn_sign_count = none;
}

abbrev world : World users
world = record {
  session = record {
    admin_user = none;
    pending_username = none;
    webauthn_current_challenge = none;
  };
  um_engine = none;
  db_engine = none;
  user_engine = (admin, set_admin) ∷ [];
}

abbrev login_body : Text → Fields
login_body p = field (codes "username") (str admin) (field (codes "password") (str p) end)

abbrev change_body : Text → Text → Fields
change_body old new =
    field (codes "username") (str admin)
      (field (codes "old_password") (str old) (field (codes "new_password") (str new) end))

-- The login of the admin with the right password.
abbrev logged_in : Outcome Response × World users
logged_in =
    login users memory-IsTable marked count_rows no_probe (λ k s. refl) env
      (login_body (codes "secret")) world

abbrev account_of : Text → Option Admin
account_of = account users memory-IsTable marked count_rows no_probe (λ k s. refl) env world

password_login-decides_example :
    (status logged_in.0
      ≡ (if password_matches users marked (account_of admin) (codes "secret") then 200 else 401))
    × (logged_in.1.session
        ≡ session_after users memory-IsTable marked count_rows no_probe
            (λ k s. refl)
            env
            (password_matches users marked (account_of admin) (codes "secret"))
            (must_change (account_of admin))
            admin
            world.session)
    × ((j : Text) → lookup (um_db users logged_in.1) j ≡ account_of j)
unfolding stripped_or get_field ◌==◌ strip is_space
password_login-decides_example =
    password_login-decides users memory-IsTable marked count_rows no_probe (λ k s. refl) env
      (login_body (codes "secret")) world admin (codes "secret")
      (record { user_field = refl; password_field = refl })

password_change_without_old_example :
    (status
        (change users memory-IsTable marked count_rows no_probe env
          (change_body [] (codes "taken"))
          world).0
      ≡ 200)
    × ((change users memory-IsTable marked count_rows no_probe env
          (change_body [] (codes "taken"))
          world).1.session.admin_user
        ≡ some admin)
    × ((c : Text)
        → (check_admin_password users marked admin c (
            um_db users
              (change users memory-IsTable marked count_rows no_probe env
                (change_body [] (codes "taken"))
                world).1)).0
          ≡ ok (codes "taken" == c))
unfolding lookup stripped_or get_field ◌==◌ strip is_space
password_change_without_old_example =
    password_change_without_old users memory-IsTable marked count_rows no_probe env marked-IsHashing
      (change_body [] (codes "taken")) world admin (codes "taken")
      (record {
        user_field = refl;
        old_field = refl;
        new_field = refl;
        has_user = refl;
        has_new = refl;
      })

password_change-decides_example :
    IsDenied users memory-IsTable marked count_rows no_probe env 401 world (
      change users memory-IsTable marked count_rows no_probe env
        (change_body (codes "wrong") (codes "taken"))
        world)
unfolding lookup stripped_or get_field ◌==◌ strip is_space
password_change-decides_example =
    password_change-decides users memory-IsTable marked count_rows no_probe env marked-IsHashing
      (change_body (codes "wrong") (codes "taken")) world admin (codes "wrong") (codes "taken")
      (record { user_field = refl; old_field = refl; new_field = refl })
