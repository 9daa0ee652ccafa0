-- ===== src/Web/Addresses/Listing.antt =====
-- `list_addresses` of postfix_blocker/web/routes_addresses.py: the whole table, or a page of it.
pub mod Walk
pub mod Meaning
mod Tests
use postfixblocker.Prelude.{
  ℕ, ◌≡◌, Bool, true, false, not, ◌&&◌, ◌||◌, Option, none, some, List, [], ◌∷◌, map, if◌then◌else◌,
  or_else, is_some,
}
use postfixblocker.Text.{Text, codes, ◌==◌, lower, strip}
use postfixblocker.Text.Decimal.{pos}
use postfixblocker.Exec.{Outcome, ok, raised, Exec, pure, lift, get_state, continue, ◌>>=◌, ◌>>◌}
use postfixblocker.Web.Json.{
  Json, Items, Fields, bool, num, str, arr, obj, nil, cons, field, end, get_or, truthy,
}
use postfixblocker.Web.Http.{Response}
use postfixblocker.Web.Auth.{Env, text_or}
use postfixblocker.Web.Addresses.{Blocked, Api, when_ready}
use postfixblocker.Web.Addresses.Query.{
  Column, Filter, arg, parse_page_args, build_filters, sort_column, is_descending, page_bounds,
}

-- A row of the table, with the values of the driver; `test_mode` may be missing.
pub record Listed : Type 0 where
  pub id : ℕ
  pub pattern : Text
  pub is_regex : Json
  pub test_mode : Option Json

-- `_row_to_dict`.
pub row_to_dict : Listed → Json
row_to_dict r = obj (
    field (codes "id") (num (pos r.id)) (
      field (codes "pattern") (str r.pattern) (
        field (codes "is_regex") r.is_regex
          (field (codes "test_mode") (bool (truthy (get_or r.test_mode (bool true)))) end))))

-- The queries: `engine.connect()`, all rows, the number of the rows that pass the filters, and those
-- rows in the order of a column, descending or not, from an offset on, up to a limit.
pub record Queries (Db : Type 0) : Type 0 where
  pub connect : Db → Outcome (Unit {0})
  pub all : Db → Outcome (List Listed)
  pub total : List Filter → Db → Outcome (Option ℕ)
  pub page : List Filter → Column → Bool → ℕ × ℕ → Db → Outcome (List Listed)

-- The arguments of the request.
pub record Args : Type 0 where
  pub page : Option Text
  pub page_size : Option Text
  pub q : Option Text
  pub f_pattern : Option Text
  pub f_id : Option Text
  pub f_is_regex : Option Text
  pub sort : Option Text
  pub dir : Option Text

abbrev pub items_of : List Json → Items
items_of [] = nil
items_of (v ∷ vs) = cons v (items_of vs)

-- `rows`, where an exception of the query leaves no row.
abbrev pub rows_or_none : Outcome (List Listed) → List Listed
rows_or_none (ok rows) = rows
rows_or_none (raised e) = []

abbrev pub rows_reply : List Listed → Json
rows_reply rows = arr (items_of (map row_to_dict rows))

abbrev pub is_paged : Args → Bool
is_paged args =
    is_some args.page
    || is_some args.page_size
    || is_some args.q
    || is_some args.sort
    || is_some args.dir

abbrev pub filters_of : Args → List Filter
filters_of args = build_filters args.q args.f_pattern args.f_id args.f_is_regex

abbrev pub sort_of : Args → Text
sort_of args = strip (text_or args.sort (codes "pattern"))

abbrev pub dir_of : Bool → Text
dir_of descending = if descending then codes "desc" else codes "asc"

-- The reply for a page.
pub page_reply : Args → ℕ → List Listed → Response
page_reply args total rows =
    let (page, page_size) = parse_page_args args.page args.page_size in
    record {
      status = 200;
      body = obj (
          field (codes "items") (rows_reply rows) (
            field (codes "total") (num (pos total)) (
              field (codes "page") (num (pos page)) (
                field (codes "page_size") (num (pos page_size)) (
                  field (codes "sort") (str (sort_of args)) (
                    field (codes "dir") (str (dir_of (is_descending args.dir)))
                      (field (codes "q") (str (arg args.q)) end)))))));
    }

module _ (b : Blocked) (env : Env) (queries : Queries b.Db) where
  pub list_unpaged : Exec (Api b env) Response
  list_unpaged = do
    w ← get_state
    lift (queries.connect w.db)
    pure (record { status = 200; body = rows_reply (rows_or_none (queries.all w.db)) })

  pub list_paged : Args → Exec (Api b env) Response
  list_paged args = do
    w ← get_state
    lift (queries.connect w.db)
    total ← lift (queries.total (filters_of args) w.db)
    pure (
        page_reply args (or_else total 0) (
          rows_or_none (
            queries.page (filters_of args) (sort_column (sort_of args)) (is_descending args.dir)
              (page_bounds (parse_page_args args.page args.page_size)) w.db)))

  unfoldable pub list_addresses : Option Bool → Args → Exec (Api b env) Response
  list_addresses ready args =
      when_ready b env ready (if is_paged args then list_paged args else list_unpaged)
