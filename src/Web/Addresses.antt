-- ===== src/Web/Addresses.antt =====
-- postfix_blocker/web/routes_addresses.py. The table `blocked_addresses` is a parameter; so are the
-- result of `ensure_db_ready` and the content of the service's PID file.
pub mod Query
pub mod Laws
pub mod Updated
pub mod Listing
pub mod Memory
pub mod Guarded
mod Tests
use postfixblocker.Prelude.{
  ℕ, suc, ◌+◌, ◌-◌, ◌*◌, min, max, ◌≡◌, Bool, true, false, not, ◌&&◌, ◌||◌, Option, none, some,
  List, [], ◌∷◌, ◌++◌, map, eqb, ltb, if◌then◌else◌, or_else, is_some, any,
}
use postfixblocker.Text.{Text, codes, ◌==◌, is_empty, strip, upper, lower, contains}
use postfixblocker.Text.Decimal.{ℤ, pos, negsuc, parse_int}
use postfixblocker.Exec.{
  Exn, http, Outcome, ok, raised, Exec, pure, raise, lift, or_raise, try_except, handle, continue,
  ◌>>=◌, ◌>>◌,
}
use postfixblocker.Db.Table.{transaction}
use postfixblocker.Web.Json.{
  Json, Fields, null, bool, str, obj, field, end, get_field, get_or, truthy, fields_of,
  fields_or_empty, stripped_or,
}
use postfixblocker.Web.Http.{Response, error_response, abort}
use postfixblocker.Web.Auth.{Session, Env, guarded}

-- The columns that `update_address` sets.
pub record Updates : Type 0 where
  pub pattern : Option Text
  pub is_regex : Option Bool
  pub test_mode : Option Bool

-- The statements on the table. `insert` leaves `test_mode` out where it is `none`, and `update`
-- returns the row count.
pub record Blocked : Type 1 where
  pub Db : Type 0
  pub insert : Json → Bool → Option Bool → Exec Db (Unit {0})
  pub delete : ℕ → Exec Db (Unit {0})
  pub update : ℕ → Updates → Exec Db ℕ

abbrev pub done_response : ℕ → Text → Response
done_response code s = record { status = code; body = obj (field (codes "status") (str s) end) }

abbrev pub not_ready : Option Bool → Bool
not_ready none = false
not_ready (some ready) = not ready

-- The messages for which the first insert is tried again without the column.
pub is_missing_column : Exn → Bool
is_missing_column e =
    let msg = lower e.message in
    contains (codes "test_mode") msg
    && (contains (codes "column") msg
        || contains (codes "unknown") msg
        || contains (codes "invalid") msg)

pub is_conflict : Exn → Bool
is_conflict e =
    let msg = lower e.message in contains (codes "duplicate") msg || contains (codes "unique") msg

abbrev pub already_exists : Exn
already_exists = abort 409 (codes "pattern already exists")

abbrev pub not_found : Exn
not_found = abort 404 (codes "404 Not Found")

abbrev flag : Text → Fields → Option Bool
flag key data' = elim (get_field key data') [ none ↦ none | some v ↦ some (truthy v) ]

abbrev unless_empty : Text → Option Text
unless_empty [] = none
unless_empty (c ∷ s) = some (c ∷ s)

-- The dict `updates` of `update_address`.
pub collect_updates : Fields → Outcome Updates
collect_updates data' = elim (stripped_or (get_field (codes "pattern") data') []) [
  | raised e ↦ raised e
  | ok s ↦ ok (record {
    pattern = unless_empty s;
    is_regex = flag (codes "is_regex") data';
    test_mode = flag (codes "test_mode") data';
  })
]

abbrev pub has_updates : Updates → Bool
has_updates u = is_some u.pattern || is_some u.is_regex || is_some u.test_mode

module _ (b : Blocked) (env : Env) where
  open b use {Db}

  -- The client's session, the database, and the processes that were signalled.
  pub record Api : Type 0 where
    pub session : Session
    pub db : Db
    pub signals : List ℤ

  abbrev pub on_db : {A : Type 0} → Exec Db A → Exec Api A
  on_db m w = let (r, d) = m w.db in (r, record w { db = d })

  abbrev pub signal : Option ℤ → Api → Api
  signal none w = w
  signal (some pid) w = record w { signals = w.signals ++ pid ∷ [] }

  -- `_notify_blocker_refresh`, on how reading the PID file ends.
  pub notify_blocker_refresh : Outcome Text → Exec Api (Unit {0})
  notify_blocker_refresh (raised e) w = (ok tt, w)
  notify_blocker_refresh (ok content) w = (ok tt, signal (parse_int (strip content)) w)

  -- The guard and the check of the database that the handlers begin with.
  abbrev pub when_ready : Option Bool → Exec Api Response → Exec Api Response
  when_ready ready fn =
      guarded (λ w. w.session) env
        (if not_ready ready then pure (error_response 503 (codes "database not ready")) else fn)

  pub insert_address : Json → Bool → Bool → Exec Db (Unit {0})
  insert_address pattern is_regex test_mode =
      try_except
        (try_except (transaction (b.insert pattern is_regex (some test_mode))) (λ e.
          if is_missing_column e then transaction (b.insert pattern is_regex none) else raise e))
        (λ e. if is_conflict e then raise already_exists else raise e)

  -- The rest of `add_address`, for the fields of the body.
  pub add_fields : Outcome Text → Fields → Exec Api Response
  add_fields pid data' =
      if truthy (get_or (get_field (codes "pattern") data') null)
      then (do
        on_db (
            insert_address (get_or (get_field (codes "pattern") data') null)
              (truthy (get_or (get_field (codes "is_regex") data') (bool false)))
              (truthy (get_or (get_field (codes "test_mode") data') (bool true))))
        notify_blocker_refresh pid
        pure (done_response 201 (codes "ok")))
      else raise (abort 400 (codes "pattern is required"))

  pub add_address : Option Bool → Outcome Text → Option Json → Exec Api Response
  add_address ready pid body = when_ready ready (do
    json ← or_raise body (abort 400 (codes "Bad Request"))
    data' ← lift (fields_of json)
    add_fields pid data')

  pub delete_address : Option Bool → Outcome Text → ℕ → Exec Api Response
  delete_address ready pid entry_id = when_ready ready (do
    on_db (transaction (b.delete entry_id))
    notify_blocker_refresh pid
    pure (done_response 200 (codes "deleted")))

  abbrev require_row : ℕ → Exec Db (Unit {0})
  require_row n = if eqb n 0 then raise not_found else pure tt

  pub update_row : ℕ → Updates → Exec Db (Unit {0})
  update_row entry_id updates =
      try_except (transaction (do n ← b.update entry_id updates; require_row n))
        (λ e. if is_conflict e then raise already_exists else raise e)

  pub update_fields : Outcome Text → ℕ → Updates → Exec Api Response
  update_fields pid entry_id updates =
      if has_updates updates
      then (do
        on_db (update_row entry_id updates)
        notify_blocker_refresh pid
        pure (done_response 200 (codes "ok")))
      else raise (abort 400 (codes "no updatable fields provided"))

  pub update_address : Option Bool → Outcome Text → ℕ → Option Json → Exec Api Response
  update_address ready pid entry_id body = when_ready ready (do
    json ← or_raise body (abort 400 (codes "Bad Request"))
    data' ← lift (fields_or_empty json)
    updates ← lift (collect_updates data')
    update_fields pid entry_id updates)
