-- ===== src/Web/Addresses/Listing/Tests.antt =====
-- The pages of a table of three rows.
use postfixblocker.Prelude.{
  ℕ, ◌≡◌, refl, true, false, none, some, List, [], ◌∷◌, length, take, drop, arith,
}
use postfixblocker.Text.{Text, codes, ◌==◌, strip, lower, upper, is_space}
use postfixblocker.Text.Decimal.{parse_int}
use postfixblocker.Exec.{ok}
use postfixblocker.Web.Json.{bool}
use postfixblocker.Web.Auth.{Env}
use postfixblocker.Web.Addresses.{Blocked, Api}
use postfixblocker.Web.Addresses.Listing.{Listed, Queries, Args, row_to_dict}
use postfixblocker.Web.Addresses.Listing.Meaning.{insert_row, in_order, passing}
use postfixblocker.Web.Addresses.Listing.Walk.{IsAnswering, walk, list_addresses-walk}

abbrev table : Blocked
table = record {
  Db = List Listed;
  insert = λ p r t l. (ok tt, l);
  delete = λ k l. (ok tt, l);
  update = λ k u l. (ok 0, l);
}

-- A filter on the patterns asks for the whole pattern here.
abbrev queries : Queries (List Listed)
queries = record {
  connect = λ l. ok tt;
  all = λ l. ok l;
  total = λ fs l. ok (some (length (passing ◌==◌ fs l)));
  page = λ fs c d bounds l. ok (take bounds.1 (drop bounds.0 (in_order d (passing ◌==◌ fs l))));
}

abbrev queries-IsAnswering : IsAnswering queries
queries-IsAnswering = record {
  rows = λ l. l;
  like = ◌==◌;
  connects = λ l. refl;
  total_lem = λ fs l. refl;
  page_lem = λ fs d offset limit l. refl;
}

abbrev row : ℕ → Text → Listed
row n p = record { id = n; pattern = p; is_regex = bool false; test_mode = some (bool true) }

abbrev three : List Listed
three = row 1 (codes "A@X") ∷ row 2 (codes "B@X") ∷ row 3 (codes "A@X") ∷ []

abbrev args : Args
args = record {
  page = none;
  page_size = none;
  q = some (codes "a@x");
  f_pattern = none;
  f_id = none;
  f_is_regex = none;
  sort = some (codes "id");
  dir = some (codes "DESC");
}

abbrev env : Env
env = record { api_auth_required = none; admin_username = none }

abbrev world : Api table env
world = record {
  session = record {
    admin_user = none;
    pending_username = none;
    webauthn_current_challenge = none;
  };
  db = three;
  signals = [];
}

list_addresses-walk_example :
    walk table env queries queries-IsAnswering (some true) args world 2 1
    ≡ row_to_dict (row 3 (codes "A@X")) ∷ row_to_dict (row 1 (codes "A@X")) ∷ []
unfolding ◌==◌ strip parse_int is_space lower upper in_order insert_row
list_addresses-walk_example =
    list_addresses-walk table env queries queries-IsAnswering (some true) args world 2 1 refl refl
      refl (omega arith) (omega arith) (omega arith)
