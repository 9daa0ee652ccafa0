-- ===== src/Web/App/Factory.antt =====
-- `create_app` of postfix_blocker/web/app_factory.py. The configuration that Flask starts an app with
-- is a parameter; logging and the hooks that only log are left out.
pub mod Settings
mod Tests
use postfixblocker.Prelude.{
  ◌≡◌, Bool, true, false, Option, none, some, List, [], ◌∷◌, ◌++◌, if◌then◌else◌, or_else,
}
use postfixblocker.Text.{Text, codes, ◌==◌}
use postfixblocker.Exec.{Outcome, ok, raised}

-- The values of `app.config` that the factory sets, and any other.
pub data Setting : Type 0 where
  absent ensure_db_ready : Setting
  flag : Bool → Setting
  text : Text → Setting

-- What `create_app` sets on the app. Flask keeps `app.secret_key` in the configuration, under the key
-- SECRET_KEY.
pub record Flask : Type 0 where
  pub config : List (Text × Setting)
  pub blueprints : List Text

-- The argument of `create_app`: none, a dict, or an object that is no dict.
pub data Overrides : Type 0 where
  nothing other_object : Overrides
  dict : List (Text × Setting) → Overrides

-- SESSION_SECRET and TEST_RESET_ENABLE, and whether the test routes can be imported.
pub record Surroundings : Type 0 where
  pub session_secret : Option Text
  pub test_reset_enable : Option Text
  pub test_routes : Outcome (Unit {0})

-- `config[key] = value`.
unfoldable pub put : Text → Setting → List (Text × Setting) → List (Text × Setting)
put k v [] = (k, v) ∷ []
put k v ((j, u) ∷ l) = let rest = put k v l in if j == k then (k, v) ∷ l else (j, u) ∷ rest

-- `config.update(items)`.
abbrev pub update : List (Text × Setting) → List (Text × Setting) → List (Text × Setting)
update [] l = l
update ((k, v) ∷ items) l = update items (put k v l)

abbrev pub apply_overrides : Overrides → List (Text × Setting) → List (Text × Setting)
apply_overrides (dict items) l = update items l
apply_overrides nothing l = l
apply_overrides other_object l = l

-- `_configure_session`.
pub configure_session : Surroundings → Flask → Flask
configure_session env app = record app {
  config = put (codes "SESSION_COOKIE_SECURE") (flag true) (
      put (codes "SESSION_COOKIE_SAMESITE") (text (codes "Lax")) (
        put (codes "SESSION_COOKIE_HTTPONLY") (flag true) (
          put (codes "SECRET_KEY")
            (text (or_else env.session_secret (codes "dev-secret-change-me"))) app.config)));
}

-- `_setup_db_lazy`.
pub setup_db_lazy : Flask → Flask
setup_db_lazy app = record app {
  config =
      put (codes "ensure_db_ready") ensure_db_ready
        (put (codes "db_ready") (flag false) (put (codes "db_engine") absent app.config));
}

-- `_register_blueprints`.
abbrev pub register_blueprints : Flask → Flask
register_blueprints app = record app {
  blueprints = app.blueprints ++ codes "addresses" ∷ codes "logs" ∷ codes "auth" ∷ [];
}

abbrev with_test_routes : Outcome (Unit {0}) → Flask → Flask
with_test_routes (ok _) app = record app { blueprints = app.blueprints ++ codes "test_reset" ∷ [] }
with_test_routes (raised e) app = app

-- `_maybe_install_test_reset`.
pub maybe_install_test_reset : Surroundings → Flask → Flask
maybe_install_test_reset env app =
    if or_else env.test_reset_enable (codes "0") == codes "1"
    then with_test_routes env.test_routes app
    else app

pub create_app : Surroundings → List (Text × Setting) → Overrides → Flask
create_app env defaults overrides = maybe_install_test_reset env (
    register_blueprints (
      setup_db_lazy (
        configure_session env
          (record { config = apply_overrides overrides defaults; blueprints = [] }))))
