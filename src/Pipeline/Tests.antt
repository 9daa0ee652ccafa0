-- ===== src/Pipeline/Tests.antt =====
-- A pattern that is added to an empty table, and a level that is put.
use postfixblocker.Prelude.{
  ◌≡◌, refl, ap, true, false, none, some, Option, List, [], ◌∷◌, map, length,
}
use postfixblocker.Text.{Text, codes, ◌==◌, strip, is_space}
use postfixblocker.Text.Decimal.{ℤ, pos}
use postfixblocker.Exec.{Outcome, ok}
use postfixblocker.Postfix.Maps.{BlockEntry, written}
use postfixblocker.Postfix.Control.{Command, Completed}
use postfixblocker.Web.Json.{Json, Fields, bool, str, obj, field, end, get_field}
use postfixblocker.Web.Auth.{Env}
use postfixblocker.Web.Addresses.{Api, add_address}
use postfixblocker.Web.Addresses.Laws.{Address}
use postfixblocker.Web.Addresses.Memory.{table, table-IsBlocked}
use postfixblocker.Blocker.{Service, Seen}
use postfixblocker.Blocker.Rounds.{IsWritten}
use postfixblocker.Blocker.Failures.{after}
use postfixblocker.Pipeline.{selected, add_address-round}
use postfixblocker.Text.Decimal.{parse_int}
use postfixblocker.Db.Table.{Table, memory, memory-IsTable}
use postfixblocker.Db.Props.{blocker, log_key, value_or}
use postfixblocker.Db.Props.Laws.{get_prop_lem}
use postfixblocker.Web.Json.{text_of}
use postfixblocker.Web.Logs
use postfixblocker.Web.Logs.{service_of, put_log_level}
use postfixblocker.Blocker.Rounds.{step}
use postfixblocker.Blocker.Levels.{ran}
use postfixblocker.Pipeline.Levels.{put_log_level-round}

abbrev api_env : Env
api_env = record { api_auth_required = none; admin_username = none }

abbrev world : Api table api_env
world = record {
  session = record {
    admin_user = none;
    pending_username = none;
    webauthn_current_challenge = none;
  };
  db = [];
  signals = [];
}

abbrev body : Fields
body = field (codes "pattern") (str (codes "c@x")) (field (codes "test_mode") (bool false) end)

abbrev hash : List BlockEntry → ℤ
hash es = pos 0

abbrev run : Command → Outcome Completed
run c = ok (record { returncode = pos 0; stdout = [] })

abbrev attribute : Text → Option (Option ℤ)
attribute name = none

-- The service after a round on the empty table.
abbrev settled : Service
settled = record {
  last_marker = some ([], 0);
  last_hash = some (pos 0);
  last_blocker_level = none;
  root_level = none;
  files = record { literal = []; regex = []; test_literal = []; test_regex = [] };
  commands = [];
}

abbrev after_request : List Address
after_request = (add_address table api_env none (ok (codes "17")) (some (obj body)) world).1.db

abbrev seen : Seen
seen = record {
  level = none;
  marker_row = ok (some (codes "12:00"), length after_request);
  fetched = ok (ok (map selected after_request));
  disk = λ n. written;
  sizes = none;
}

add_address-round_example :
    IsWritten
      (record { pattern = codes "c@x"; is_regex = false; test_mode = false } ∷ [])
      (after hash run attribute none seen settled).files
unfolding get_field ◌==◌
add_address-round_example =
    add_address-round table table-IsBlocked api_env hash run attribute none none (ok (codes "17"))
      body 99 (codes "@x") world (record { allowed = refl; is_ready = refl }) refl settled []
      (some (codes "12:00")) seen refl (record { fetches = refl; counts = refl }) (λ n. refl)

abbrev props : Table (Option Text)
props = memory

abbrev repr : Json → Text
repr v = codes "{}"

abbrev logs_world : Logs.Api props api_env attribute repr
logs_world = record {
  session = record {
    admin_user = none;
    pending_username = none;
    webauthn_current_challenge = none;
  };
  db = [];
  root_level = none;
  main_cf = none;
}

abbrev level_body : Fields
level_body = field (codes "level") (str (codes "10")) end

abbrev stored : List (Text × Option Text)
stored =
    (put_log_level props api_env attribute repr true written none (codes "blocker")
      (some (obj level_body)) logs_world).1.db

abbrev seen_level : Seen
seen_level = record seen { level = value_or (memory-IsTable.row stored (log_key blocker)) none }

put_log_level-round_example :
    (step hash run attribute none seen_level (
      ran hash run attribute none
        (record { literal = []; regex = []; test_literal = []; test_regex = [] })
        (seen ∷ []))).root_level
    ≡ some (pos 10)
unfolding get_field ◌==◌ strip is_space text_of service_of parse_int
put_log_level-round_example =
    put_log_level-round props memory-IsTable api_env attribute repr hash run none true written none
      (codes "blocker") level_body logs_world
      (record { literal = []; regex = []; test_literal = []; test_regex = [] }) (seen ∷ [])
      seen_level (pos 10) (record { allowed = refl; is_ready = refl }) refl refl refl
      (ap (λ r. r.0) (get_prop_lem props memory-IsTable (log_key blocker) none stored))
