-- ===== src/Web/Addresses/Query.antt =====
-- The arguments of the listing in postfix_blocker/web/routes_addresses.py: the page, the filters and
-- the order of its query.
pub mod Pages
use postfixblocker.Prelude.{
  ℕ, ◌-◌, ◌*◌, min, max, Bool, true, false, Option, none, some, List, [], ◌∷◌, ◌++◌, if◌then◌else◌,
  any,
}
use postfixblocker.Text.{Text, codes, ◌==◌, strip, upper, lower}
use postfixblocker.Text.Decimal.{ℤ, pos, negsuc, parse_int}

-- `_parse_page_args`: `int` of a text, or the default for a missing one; `none` is its exception.
abbrev int_arg : Option Text → ℤ → Option ℤ
int_arg none default = some default
int_arg (some s) default = parse_int s

abbrev at_least_one : ℤ → ℕ
at_least_one (pos n) = max n 1
at_least_one (negsuc n) = 1

abbrev page_of : Option ℤ → ℕ
page_of none = 1
page_of (some n) = at_least_one n

abbrev page_size_of : Option ℤ → ℕ
page_size_of none = 25
page_size_of (some n) = min (at_least_one n) 500

pub parse_page_args : Option Text → Option Text → ℕ × ℕ
parse_page_args page page_size =
    (page_of (int_arg page (pos 1)), page_size_of (int_arg page_size (pos 25)))

pub data Column : Type 0 where
  by_id by_pattern by_is_regex by_updated_at by_test_mode : Column

-- The conditions of the query: a pattern with some text in it, an id, a kind.
pub data Filter : Type 0 where
  pattern_like : Text → Filter
  id_is : ℤ → Filter
  is_regex_is : Bool → Filter

abbrev pub arg : Option Text → Text
arg none = []
arg (some s) = strip s

abbrev pub like_filter : Text → List Filter
like_filter [] = []
like_filter (c ∷ q) = pattern_like (upper (c ∷ q)) ∷ []

abbrev pub id_filter : Option ℤ → List Filter
id_filter none = []
id_filter (some n) = id_is n ∷ []

abbrev pub is_one_of : List Text → Text → Bool
is_one_of words s = any (λ w. s == w) words

abbrev pub kind_filter : Text → List Filter
kind_filter s =
    if is_one_of (codes "1" ∷ codes "true" ∷ codes "t" ∷ codes "yes" ∷ codes "y" ∷ []) s
    then is_regex_is true ∷ []
    else if is_one_of (codes "0" ∷ codes "false" ∷ codes "f" ∷ codes "no" ∷ codes "n" ∷ []) s
    then is_regex_is false ∷ []
    else []

-- The filters for the arguments `q`, `f_pattern`, `f_id` and `f_is_regex`; a text that is no number
-- is no condition on the id.
unfoldable pub build_filters : Option Text → Option Text → Option Text → Option Text → List Filter
build_filters q f_pattern f_id f_is_regex =
    like_filter (arg q)
    ++ like_filter (arg f_pattern)
    ++ id_filter (parse_int (arg f_id))
    ++ kind_filter (lower (arg f_is_regex))

-- `sort_columns.get(sort, bt.c.pattern)`.
unfoldable pub sort_column : Text → Column
sort_column sort =
    if sort == codes "id"
    then by_id
    else if sort == codes "is_regex"
    then by_is_regex
    else if sort == codes "updated_at"
    then by_updated_at
    else if sort == codes "test_mode"
    then by_test_mode
    else by_pattern

-- Whether the order is descending.
unfoldable pub is_descending : Option Text → Bool
is_descending none = false
is_descending (some dir) = lower dir == codes "desc"

-- `offset` and `limit` of the query.
pub page_bounds : ℕ × ℕ → ℕ × ℕ
page_bounds (page, page_size) = ((page - 1) * page_size, page_size)
