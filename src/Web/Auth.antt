-- ===== src/Web/Auth.antt =====
-- postfix_blocker/web/auth.py, and the password and session routes of
-- postfix_blocker/web/routes_auth.py. The world of a request is the client's session and the
-- databases that may hold `um_user`.
pub mod Login
pub mod Accounts
pub mod Change
pub mod Engines
pub mod Guard
pub mod Quiet
mod Tests
use postfixblocker.Prelude.{
  ℕ, ◌≡◌, Bool, true, false, not, ◌&&◌, ◌||◌, Option, none, some, List, [], ◌∷◌, if◌then◌else◌,
  or_else,
}
use postfixblocker.Text.{Text, codes, ◌==◌, is_empty}
use postfixblocker.Exec.{
  Exn, Outcome, ok, raised, Exec, pure, raise, lift, or_raise, get_state, put_state, try_except,
  handle, continue, ◌>>=◌, ◌>>◌,
}
use postfixblocker.Db.Table.{Table}
use postfixblocker.Db.Admins.{
  Admin, Hashing, seed_default_admin, get_admin_by_username, set_admin_password,
  check_admin_password,
}
use postfixblocker.Web.Json.{
  Json, Fields, bool, str, obj, field, end, get_field, fields_or_empty, stripped_or,
}
use postfixblocker.Web.Http.{Response, error_response, abort}

-- The session cookie. `SESSION_USER_KEY` is the field `admin_user`.
pub record Session : Type 0 where
  pub admin_user : Option Text
  pub pending_username : Option Text
  pub webauthn_current_challenge : Option Text

-- The environment variables that the module reads.
pub record Env : Type 0 where
  pub api_auth_required : Option Text
  pub admin_username : Option Text

abbrev pub is_auth_required : Env → Bool
is_auth_required env = or_else env.api_auth_required (codes "0") == codes "1"

abbrev pub default_username : Env → Text
default_username env = or_else env.admin_username (codes "admin")

-- `not session.get(key)`: missing or empty.
abbrev pub is_unset : Option Text → Bool
is_unset none = true
is_unset (some s) = is_empty s

-- `a or b` on texts.
abbrev pub text_or : Option Text → Text → Text
text_or none b = b
text_or (some []) b = b
text_or (some (c ∷ s)) b = c ∷ s

abbrev pub default_password : Text
default_password = codes "postfixblocker"

-- `admin.get('must_change_password')` of `admin or {}`.
abbrev pub must_change : Option Admin → Bool
must_change none = false
must_change (some a) = a.must_change_password

abbrev pub has_webauthn : Option Admin → Bool
has_webauthn none = false
has_webauthn (some a) = not (is_unset a.webauthn_credential_id)

abbrev pub session_info : Bool → Text → Bool → Option Bool → Response
session_info authenticated username must none = record {
  status = 200;
  body = obj (
      field (codes "authenticated") (bool authenticated) (
        field (codes "username") (str username)
          (field (codes "mustChangePassword") (bool must) end)));
}
session_info authenticated username must (some passkey) = record {
  status = 200;
  body = obj (
      field (codes "authenticated") (bool authenticated) (
        field (codes "username") (str username) (
          field (codes "mustChangePassword") (bool must)
            (field (codes "hasWebAuthn") (bool passkey) end))));
}

-- `login_required(fn)`, for any state that holds a session.
abbrev pub guarded : {S : Type 0} → (S → Session) → Env → Exec S Response → Exec S Response
guarded session_of env fn w =
    if is_auth_required env && is_unset (session_of w).admin_user
    then (ok (error_response 401 (codes "unauthorized")), w)
    else fn w

module _ (t : Table Admin) where
  open t use {Db}

  -- The engines of `app.config`, each with its database, where they are set; and the one of
  -- `get_user_engine`, which its first call makes and which it then keeps.
  pub record World : Type 0 where
    pub session : Session
    pub um_engine : Option Db
    pub db_engine : Option Db
    pub user_engine : Db

  -- `_get_um_engine`: the database that the handler uses. Where `get_user_engine` raises, the first
  -- operation on `user_engine` raises: it then stands for a database on which every operation does.
  abbrev pub um_db : World → Db
  um_db w = or_else w.um_engine (or_else w.db_engine w.user_engine)

  abbrev put_db : Option Db → World → Db → World
  put_db (some old) w d = record w { db_engine = some d }
  put_db none w d = record w { user_engine = d }

  abbrev put_um : Option Db → World → Db → World
  put_um (some old) w d = record w { um_engine = some d }
  put_um none w d = put_db w.db_engine w d

  abbrev pub with_um_db : World → Db → World
  with_um_db w d = put_um w.um_engine w d

  -- An operation on that database, as a step of the handler.
  abbrev pub on_um_db : {A : Type 0} → Exec Db A → Exec World A
  on_um_db m w = let (r, d) = m (um_db w) in (r, with_um_db w d)

  unfoldable pub set_logged_in : Text → Exec World (Unit {0})
  set_logged_in username w =
      (ok tt, record w { session = record w.session { admin_user = some username } })

  pub clear_login : Exec World (Unit {0})
  clear_login w = (ok tt, record w { session = record w.session { admin_user = none } })

  abbrev set_pending : Option Text → Exec World (Unit {0})
  set_pending pending w =
      (ok tt, record w { session = record w.session { pending_username = pending } })

  -- `login_required(fn)`.
  pub login_required : Env → Exec World Response → Exec World Response
  login_required env fn w = guarded (λ w. w.session) env fn w

  -- `request.get_json(force=True) or {}`: no body that parses is a bad request.
  abbrev pub json_fields : Option Json → Exec World Fields
  json_fields body = do
    json ← or_raise body (abort 400 (codes "Bad Request"))
    lift (fields_or_empty json)

  module _ (hashing : Hashing) (count : Text → Exec Db ℕ) (driver_probe : Text → Exec Db Bool)
      (env : Env) where
    -- The end of `password_login`, for a password that was accepted.
    finish_login : Text → Option Admin → Exec World Response
    finish_login username admin =
        if must_change admin
        then (do set_pending (some username); pure (session_info false username true none))
        else (do
          set_logged_in username
          pure (session_info true username false (some (has_webauthn admin))))

    -- The attempt to seed the default admin; its exceptions are swallowed.
    seed_admin : Exec World (Unit {0})
    seed_admin =
        try_except
          (on_um_db (
            seed_default_admin t hashing count driver_probe (default_username env)
              default_password))
          (λ e. pure tt)

    -- The checks and their outcome, once the two texts are known.
    login_with : Text → Text → Exec World Response
    unfolding finish_login set_logged_in seed_admin
    login_with username password = do
      seed_admin
      good ← on_um_db (check_admin_password t hashing username password)
      if good
          then (do
            admin ← on_um_db (get_admin_by_username t hashing username)
            finish_login username admin)
          else pure (error_response 401 (codes "invalid credentials"))

    pub password_login : Option Json → Exec World Response
    password_login body = do
      data' ← json_fields body
      username ← lift (stripped_or (get_field (codes "username") data') (default_username env))
      password ← lift (stripped_or (get_field (codes "password") data') [])
      login_with username password

    -- `old_password and not check_admin_password(…)`.
    old_is_wrong : Text → Text → Exec World Bool
    old_is_wrong username old_password = if is_empty old_password then pure false else (do
      good ← on_um_db (check_admin_password t hashing username old_password)
      pure (not good))

    -- The new password is stored, and the client is logged in.
    store_password : Text → Text → Exec World Response
    unfolding set_logged_in
    store_password username new_password = do
      on_um_db (set_admin_password t hashing username new_password false)
      set_pending none
      set_logged_in username
      admin ← on_um_db (get_admin_by_username t hashing username)
      pure (session_info true username false (some (has_webauthn admin)))

    change_with : Text → Text → Text → Exec World Response
    unfolding old_is_wrong store_password
    change_with username old_password new_password =
        if is_empty username || is_empty new_password
        then pure (error_response 400 (codes "username and new_password required"))
        else (do
          wrong ← old_is_wrong username old_password
          if wrong
              then pure (error_response 401 (codes "invalid credentials"))
              else store_password username new_password)

    pub password_change : Option Json → Exec World Response
    password_change body = do
      data' ← json_fields body
      w ← get_state
      username ← lift (
          stripped_or (get_field (codes "username") data')
            (text_or w.session.pending_username (default_username env)))
      old_password ← lift (stripped_or (get_field (codes "old_password") data') [])
      new_password ← lift (stripped_or (get_field (codes "new_password") data') [])
      change_with username old_password new_password

    pub logout : Exec World Response
    logout = login_required env (do
      clear_login
      pure (record { status = 200; body = obj (field (codes "ok") (bool true) end) }))

    me_as : Option Text → Exec World Response
    me_as none = pure (session_info false [] false (some false))
    me_as (some []) = pure (session_info false [] false (some false))
    me_as (some (c ∷ u)) = do
      admin ← on_um_db (get_admin_by_username t hashing (c ∷ u))
      pure (session_info true (c ∷ u) (must_change admin) (some (has_webauthn admin)))

    pub me : Exec World Response
    unfolding me_as
    me = do w ← get_state; me_as w.session.admin_user
