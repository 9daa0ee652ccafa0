-- ===== src/Web/Logs/Tests.antt =====
-- The theorems at requests to a server with the properties in memory.
use postfixblocker.Prelude.{◌≡◌, refl, true, Option, none, some, [], if◌then◌else◌}
use postfixblocker.Text.{Text, codes, ◌==◌, strip, is_space, lower}
use postfixblocker.Text.Decimal.{ℤ, pos}
use postfixblocker.Exec.{ok}
use postfixblocker.Postfix.Maps.{written}
use postfixblocker.Db.Table.{Table, memory, memory-IsTable}
use postfixblocker.Db.Props.{api, blocker, log_key}
use postfixblocker.Web.Json.{Json, Fields, str, num, obj, field, end, get_field, int_of, text_of}
use postfixblocker.Web.Http.{status}
use postfixblocker.Web.Auth.{Env}
use postfixblocker.Web.Logs.{
  Api, service_of, level_text, level_response, refresh_response, get_log_level, put_log_level,
  get_refresh_interval, put_refresh_interval,
}
use postfixblocker.Web.Logs.Settings.{IsAllowed, get-put_refresh_interval, get-put_log_level}

abbrev props : Table (Option Text)
props = memory

abbrev env : Env
env = record { api_auth_required = none; admin_username = none }

abbrev attribute : Text → Option (Option ℤ)
attribute name = some none

abbrev repr : Json → Text
repr v = codes "{}"

abbrev world : Api props env attribute repr
world = record {
  session = record {
    admin_user = none;
    pending_username = none;
    webauthn_current_challenge = none;
  };
  db = [];
  root_level = none;
  main_cf = none;
}

world-IsAllowed : IsAllowed props memory-IsTable env attribute repr (some true) world
unfolding ◌==◌
world-IsAllowed = record { allowed = refl; is_ready = refl }

abbrev every_second : Fields
every_second = field (codes "interval_ms") (num (pos 1000)) end

abbrev loud : Fields
loud = field (codes "level") (str (codes "LOUD")) end

get-put_refresh_interval_example :
    (status
        (put_refresh_interval props env attribute repr
          (some true)
          (codes "API")
          (some (obj every_second))
          world).0
      ≡ 200)
    × ((get_refresh_interval props env attribute repr
          (some true)
          (codes "API")
          (put_refresh_interval props env attribute repr
            (some true)
            (codes "API")
            (some (obj every_second))
            world).1).0
        ≡ ok (refresh_response props env attribute repr api (pos 1000) (pos 200)))
unfolding service_of lower int_of get_field ◌==◌
get-put_refresh_interval_example =
    get-put_refresh_interval props memory-IsTable env attribute repr (some true) (codes "API") api
      every_second (pos 1000) (pos 200) world world-IsAllowed refl refl refl

get-put_log_level_example :
    (get_log_level props env attribute repr
      (some true)
      (codes "blocker")
      (put_log_level props env attribute repr true written
        (some true)
        (codes "api")
        (some (obj loud))
        world).1).0
    ≡ (if log_key api == log_key blocker
        then ok (
            level_response props env attribute repr blocker
              (some (level_text props env attribute repr loud)))
        else (get_log_level props env attribute repr (some true) (codes "blocker") world).0)
unfolding service_of get_field ◌==◌ strip is_space text_of
get-put_log_level_example =
    get-put_log_level props memory-IsTable env attribute repr true written (some true) (codes "api")
      (codes "blocker") api blocker loud world world-IsAllowed refl refl refl
