-- ===== src/Web/App/Factory/Tests.antt =====
-- An app with overrides, one of them of a key that the factory sets.
use postfixblocker.Prelude.{true, none, some, [], ◌∷◌}
use postfixblocker.Text.{codes}
use postfixblocker.Exec.{ok}
use postfixblocker.Web.App.Factory.{flag, text, Overrides, dict, Surroundings, create_app}
use postfixblocker.Web.App.Factory.Settings.{IsNew, create_app-IsNew}

abbrev surroundings : Surroundings
surroundings = record {
  session_secret = none;
  test_reset_enable = some (codes "1");
  test_routes = ok tt;
}

abbrev overrides : Overrides
overrides = dict ((codes "db_ready", flag true) ∷ (codes "um_engine", text (codes "memory")) ∷ [])

create_app-IsNew_example : IsNew surroundings [] overrides (create_app surroundings [] overrides)
create_app-IsNew_example = create_app-IsNew surroundings [] overrides
