-- ===== src/Web/Addresses/Tests.antt =====
-- The theorems at requests to a server with the table in memory.
use postfixblocker.Prelude.{
  refl, true, false, none, some, List, [], ◌∷◌, ◌++◌, map, eqb, any, if◌then◌else◌,
}
use postfixblocker.Text.{Text, codes, ◌==◌, strip}
use postfixblocker.Exec.{Outcome, ok}
use postfixblocker.Web.Json.{Fields, bool, str, field, obj, end, get_field, get_or, truthy}
use postfixblocker.Web.Auth.{Env}
use postfixblocker.Web.Addresses.{Api, add_address, update_address}
use postfixblocker.Web.Addresses.Laws.{Address, IsAllowed, Did, signalled, add_address-rows}
use postfixblocker.Web.Addresses.Updated.{changed, update_address-rows}
use postfixblocker.Web.Addresses.Memory.{table, table-IsBlocked}

abbrev env : Env
env = record { api_auth_required = some (codes "1"); admin_username = none }

abbrev two : List Address
two =
    record { id = 1; pattern = codes "a@x"; is_regex = false; test_mode = true }
    ∷ record { id = 2; pattern = codes "b.*"; is_regex = true; test_mode = false }
    ∷ []

abbrev world : Api table env
world = record {
  session = record {
    admin_user = some (codes "admin");
    pending_username = none;
    webauthn_current_challenge = none;
  };
  db = two;
  signals = [];
}

abbrev pid : Outcome Text
pid = ok (codes "42")

world-IsAllowed : IsAllowed table table-IsBlocked env (some true) world
unfolding ◌==◌
world-IsAllowed = record { allowed = refl; is_ready = refl }

abbrev set_test_mode : Fields
set_test_mode = field (codes "test_mode") (bool false) end

abbrev new_pattern : Fields
new_pattern = field (codes "pattern") (str (codes "c@x")) end

add_address-rows_example :
    Did table table-IsBlocked env
      (add_address table env (some true) pid (some (obj new_pattern)) world)
      201
      (two
        ++ record {
          id = 3;
          pattern = codes "c@x";
          is_regex = truthy (get_or (get_field (codes "is_regex") new_pattern) (bool false));
          test_mode = truthy (get_or (get_field (codes "test_mode") new_pattern) (bool true));
        }
          ∷ [])
      (signalled table table-IsBlocked env pid)
unfolding get_field ◌==◌
add_address-rows_example =
    add_address-rows table table-IsBlocked env (some true) pid new_pattern 99 (codes "@x") world
      world-IsAllowed refl

update_address-rows_example :
    if any (λ a. eqb a.id 2) two
    then Did table table-IsBlocked env
        (update_address table env (some true) pid 2 (some (obj set_test_mode)) world)
        200
        (map (changed 2 none set_test_mode) two)
        (signalled table table-IsBlocked env pid)
    else Did table table-IsBlocked env
        (update_address table env (some true) pid 2 (some (obj set_test_mode)) world)
        404
        two
        []
unfolding get_field ◌==◌ strip
update_address-rows_example =
    update_address-rows table table-IsBlocked env (some true) pid 2 set_test_mode none world
      world-IsAllowed refl
