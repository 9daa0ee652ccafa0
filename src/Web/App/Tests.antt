-- ===== src/Web/App/Tests.antt =====
-- The theorems at calls of a deployment in memory.
use postfixblocker.Prelude.{◌≡◌, refl, ap, ◌∙◌, true, false, Option, none, some, List, [], ◌∷◌}
use postfixblocker.Text.{Text, codes, ◌==◌, strip, is_space, contains, lower}
use postfixblocker.Exec.{raised}
use postfixblocker.Db.Table.{lookup, memory, memory-IsTable}
use postfixblocker.Db.Admins.{password_matches}
use postfixblocker.Db.Admins.Laws.{seed_default_admin-row}
use postfixblocker.Db.Engine.{ensure_db_ready, try_ready}
use postfixblocker.Db.Engine.Ready.{IsOneEngine, new_app}
use postfixblocker.Db.Migrations.{init_db, safe_create, is_existing}
use postfixblocker.Web.Json.{Fields, str, obj, field, end, get_field, stripped_or}
use postfixblocker.Web.Http.{status}
use postfixblocker.Web.Auth.{Session, must_change, default_password}
use postfixblocker.Web.Auth.Login.{password_login-found}
use postfixblocker.Web.Addresses.Listing.{list_addresses}
use postfixblocker.Web.Addresses.Memory.{table-IsBlocked}
use postfixblocker.Web.App.Process.{
  Deployment, Conditions, Call, call_list_addresses, call_delete_address, call_password_login,
  State, auth_world,
}
use postfixblocker.Web.App.{ensure_ready, handler, answer, serve}
use postfixblocker.Web.App.Switched.{IsFirst, seen_by, answer-switched}
use postfixblocker.Web.App.Access.{HasDeleted, found_user, behind_login, login-delete}
use postfixblocker.Web.App.Ready.{serve_clients, serve_clients-IsOneEngine}
use postfixblocker.Web.App.Apart.{IsUntouched, no_login, all_refused}
use postfixblocker.Web.App.Unauthenticated.{serve-IsUntouched}
use postfixblocker.Web.App.Example.{
  props-IsTable, refused, schema, marked, marked-IsHashing, count_rows, no_probe, users_table, env,
  deployment, deployment-IsApart, admin, set_admin, started, fair,
}

abbrev wrong_body : Fields
wrong_body =
    field (codes "username") (str admin) (field (codes "password") (str (codes "wrong")) end)

-- A login with a wrong password, and an attempt to delete an address.
abbrev attempts : List (Conditions × Call)
attempts = (fair, call_password_login (some (obj wrong_body))) ∷ (fair, call_delete_address 3) ∷ []

wrong_refused :
    (status (answer deployment fair (call_password_login (some (obj wrong_body))) started).0) ≡ 401
unfolding answer handler lookup stripped_or get_field ◌==◌ strip is_space
wrong_refused =
    (password_login-found memory memory-IsTable marked count_rows no_probe (λ k s. refl) env
      wrong_body (auth_world deployment started) admin (codes "wrong")
      (record { user_field = refl; password_field = refl })).0
    ∙ rw
        ((seed_default_admin-row memory memory-IsTable marked count_rows no_probe (λ k s. refl)
          admin default_password ((admin, set_admin) ∷ []) admin).1)
        refl

attempts-no_login : no_login attempts (serve deployment attempts started).0 ≡ true
attempts-no_login = rw wrong_refused refl

serve-IsUntouched_example :
    IsUntouched deployment props-IsTable started (serve deployment attempts started).1
    × (all_refused attempts (serve deployment attempts started).0 ≡ true)
unfolding ◌==◌
serve-IsUntouched_example =
    serve-IsUntouched deployment props-IsTable memory-IsTable deployment-IsApart (λ m. refl) refl
      attempts started refl attempts-no_login

-- The process once its database is ready, with two addresses.
abbrev up : State deployment
up = record started {
  config = record { db_engine = some 0; db_ready = true; made = 1 };
  main = record {
    rows = [];
    users = (admin, set_admin) ∷ [];
    addresses =
        record { id = 1; pattern = codes "a@x"; is_regex = false; test_mode = false }
        ∷ record { id = 3; pattern = codes "b@x"; is_regex = false; test_mode = true }
        ∷ [];
  };
}

abbrev right_body : Fields
right_body =
    field (codes "username") (str admin) (field (codes "password") (str (codes "secret")) end)

admin_found :
    found_user deployment props-IsTable deployment-IsApart memory-IsTable
      (λ k s. refl)
      table-IsBlocked
      (λ b m. refl)
      up
      admin
    ≡ some set_admin
unfolding lookup ◌==◌
admin_found =
    (seed_default_admin-row memory memory-IsTable marked count_rows no_probe (λ k s. refl) admin
      default_password ((admin, set_admin) ∷ []) admin).1

login-delete_example :
    HasDeleted deployment props-IsTable deployment-IsApart memory-IsTable
      (λ k s. refl)
      table-IsBlocked
      (λ b m. refl)
      fair
      3
      up
      (answer deployment fair (call_delete_address 3) (
        behind_login deployment props-IsTable deployment-IsApart memory-IsTable
          (λ k s. refl)
          table-IsBlocked
          (λ b m. refl)
          fair
          right_body
          up))
unfolding stripped_or get_field ◌==◌ strip is_space
login-delete_example =
    login-delete deployment props-IsTable deployment-IsApart memory-IsTable (λ k s. refl)
      table-IsBlocked (λ b m. refl) fair fair right_body admin (codes "secret") 3 up
      (record {
        request = record { user_field = refl; password_field = refl };
        matches = ap (λ o. password_matches users_table marked o (codes "secret")) admin_found;
        settled = ap must_change admin_found;
        named = refl;
      })
      refl

abbrev listing : Call
listing = call_list_addresses (record {
  page = none;
  page_size = none;
  q = none;
  f_pattern = none;
  f_id = none;
  f_is_regex = none;
  sort = none;
  dir = none;
})

abbrev logged_in : State deployment
logged_in = record started { session = record started.session { admin_user = some admin } }

-- The administrator's call, and then an attempt of a client that is not logged in.
abbrev admin_calls : List (Session × Conditions × Call)
admin_calls = (logged_in.session, fair, listing) ∷ []

abbrev other_calls : List (Session × Conditions × Call)
other_calls = (started.session, fair, call_delete_address 3) ∷ []

serve_clients-IsOneEngine_example :
    IsOneEngine (serve_clients deployment admin_calls started).config
    × ((serve_clients deployment admin_calls started).config.db_ready ≡ true
        → (serve_clients deployment other_calls
            (serve_clients deployment admin_calls started)).config
          ≡ (serve_clients deployment admin_calls started).config)
serve_clients-IsOneEngine_example =
    serve_clients-IsOneEngine deployment started admin_calls other_calls refl

-- A database on which no table can be created.
abbrev full : Deployment
full = record deployment {
  schema = record schema { create = λ created first m. (raised refused, m) };
}

abbrev full_started : Option Text → State full
full_started user = record {
  session = record {
    admin_user = user;
    pending_username = none;
    webauthn_current_challenge = none;
  };
  um_engine = none;
  user_engine = (admin, set_admin) ∷ [];
  config = new_app;
  main = record { rows = []; users = []; addresses = [] };
  executed = [];
  signals = [];
  root_level = none;
  main_cf = none;
}

abbrev anyone : Session
anyone = started.session

abbrev default_body : Fields
default_body =
    field (codes "username") (str admin) (field (codes "password") (str default_password) end)

listing-IsFirst : IsFirst full fair listing (full_started (some admin))
unfolding ◌==◌
listing-IsFirst = record {
  asks = refl;
  let_in = refl;
  can_make = refl;
  no_um_engine = refl;
  no_engine = refl;
  not_ready = refl;
}

no_users : lookup (answer full fair listing (full_started (some admin))).1.main.users admin ≡ none
unfolding answer handler ensure_ready ensure_db_ready try_ready init_db safe_create is_existing
    contains lower lookup list_addresses ◌==◌
no_users = refl

answer-switched_example :
    (status
        (answer full fair
          (call_password_login (some (obj default_body)))
          (seen_by full fair anyone listing (full_started (some admin)))).0
      ≡ 200)
    × ((answer full fair
          (call_password_login (some (obj default_body)))
          (seen_by full fair anyone listing (full_started (some admin)))).1.session.pending_username
        ≡ some admin)
unfolding stripped_or get_field ◌==◌ strip is_space
answer-switched_example =
    answer-switched full fair memory-IsTable marked-IsHashing (λ k s. refl) listing
      (full_started (some admin)) anyone default_body fair listing-IsFirst
      (record { user_field = refl; password_field = refl }) no_users
