-- ===== src/Web/TestReset.antt =====
-- postfix_blocker/web/routes_test_reset.py: the reset and the dump of the tables, for tests. The
-- statements on the two tables are a parameter, `repr` is Python's text of a list or a dict.
pub mod Seeded
pub mod Dumped
pub mod Disabled
mod Tests
use postfixblocker.Prelude.{
  ℕ, zero, suc, ◌≡◌, Bool, true, false, not, Option, none, some, List, [], ◌∷◌, ◌++◌, map,
  if◌then◌else◌, or_else,
}
use postfixblocker.Text.{Text, codes, ◌==◌, strip}
use postfixblocker.Text.Decimal.{ℤ, pos}
use postfixblocker.Exec.{
  type_error, Exn, Outcome, ok, raised, Exec, pure, raise, lift, get_state, continue, ◌>>=◌, ◌>>◌,
}
use postfixblocker.Db.Table.{transaction}
use postfixblocker.Postfix.Maps.{BlockEntry}
use postfixblocker.Blocker.Signature.{sorted, text_lt}
use postfixblocker.Web.Json.{
  Json, Items, Fields, null, bool, num, str, arr, obj, nil, cons, field, end, get_field, get_or,
  truthy, fields_or_empty, text_of, no_attribute,
}
use postfixblocker.Web.Http.{Response, error_response, abort}
use postfixblocker.Web.Addresses.{not_ready}

-- A row of `cris_props`.
pub record Prop : Type 0 where
  pub key : Text
  pub value : Option Text

-- The statements; the two deletions return the row count of the driver.
pub record Tables : Type 1 where
  pub Db : Type 0
  pub delete_blocked : Exec Db ℕ
  pub delete_props : Exec Db ℕ
  pub insert : Text → Bool → Bool → Exec Db (Unit {0})
  pub select_blocked : Db → Outcome (List BlockEntry)
  pub select_props : Db → Outcome (List Prop)

-- The variable TEST_RESET_ENABLE.
abbrev pub is_enabled : Option Text → Bool
is_enabled enable = or_else enable (codes "0") == codes "1"

-- The two checks that both routes begin with.
pub when_enabled : {S : Type 0} → Option Text → Option Bool → Exec S Response → Exec S Response
when_enabled enable ready fn =
    if is_enabled enable
    then if not_ready ready then pure (error_response 503 (codes "database not ready")) else fn
    else raise (abort 403 (codes "Forbidden"))

abbrev or_null : Option Json → Json
or_null none = null
or_null (some v) = v

abbrev or_nil : Json → Json
or_nil v = if truthy v then v else arr nil

-- `(request.get_json(silent=True) or {}).get('seeds') or []`.
unfoldable pub seeds_of : Option Json → Outcome Json
seeds_of body = elim (fields_or_empty (or_null body)) [
  | raised e ↦ raised e
  | ok payload ↦ ok (or_nil (or_null (get_field (codes "seeds") payload)))
]

-- `len(seeds)`.
abbrev pub length_items : Items → ℕ
length_items nil = 0
length_items (cons v vs) = suc (length_items vs)

abbrev pub seeded_of : Json → ℕ
seeded_of (arr vs) = length_items vs
seeded_of _ = 0

abbrev pub reset_response : ℕ → ℕ → ℕ → Response
reset_response blocked props seeded = record {
  status = 200;
  body = obj (
      field (codes "status") (str (codes "ok")) (
        field (codes "deleted")
          (obj (
            field (codes "blocked_addresses") (num (pos blocked))
              (field (codes "cris_props") (num (pos props)) end)))
          (field (codes "seeded") (num (pos seeded)) end)));
}

module _ (t : Tables) (repr : Json → Text) where
  open t use {Db, insert}

  -- `str(seed.get('pattern') or '').strip()`.
  abbrev pub seed_pattern : Fields → Text
  seed_pattern seed =
      let v = get_or (get_field (codes "pattern") seed) null in
      strip (if truthy v then text_of repr v else [])

  abbrev insert_seed : Text → Fields → Exec Db (Unit {0})
  insert_seed [] seed = pure tt
  insert_seed (c ∷ patt) seed =
      insert (c ∷ patt) (truthy (get_or (get_field (codes "is_regex") seed) (bool false)))
        (truthy (get_or (get_field (codes "test_mode") seed) (bool true)))

  -- The body of the loop over the seeds.
  pub seed_one : Json → Exec Db (Unit {0})
  seed_one (obj seed) = insert_seed (seed_pattern seed) seed
  seed_one _ = raise no_attribute

  pub seed_items : Items → Exec Db (Unit {0})
  seed_items nil = pure tt
  seed_items (cons v vs) = do seed_one v; seed_items vs

  abbrev not_iterable : Exn
  not_iterable = record { kind = type_error; message = codes "object is not iterable" }

  -- The loop: the elements of a dict or a text are texts, which have no `get`.
  pub seed_all : Json → Exec Db (Unit {0})
  seed_all (arr vs) = seed_items vs
  seed_all (obj end) = pure tt
  seed_all (obj (field k v rest)) = raise no_attribute
  seed_all (str []) = pure tt
  seed_all (str (c ∷ s)) = raise no_attribute
  seed_all _ = raise not_iterable

  -- The block under `eng.begin()`, with the two row counts.
  pub reset_tables : Json → Exec Db (ℕ × ℕ)
  reset_tables seeds =
      transaction (do
        blocked ← t.delete_blocked
        props ← t.delete_props
        seed_all seeds
        pure (blocked, props))

  pub reset_state : Option Text → Option Bool → Option Json → Exec Db Response
  reset_state enable ready body = when_enabled enable ready (do
    seeds ← lift (seeds_of body)
    counts ← reset_tables seeds
    pure (reset_response counts.0 counts.1 (seeded_of seeds)))

-- `props.sort(key=…)`, which keeps the order of equal keys.
pub insert_prop : Prop → List Prop → List Prop
insert_prop p [] = p ∷ []
insert_prop p (q ∷ qs) =
    let rest = insert_prop p qs in if text_lt q.key p.key then q ∷ rest else p ∷ q ∷ qs

pub sorted_props : List Prop → List Prop
sorted_props [] = []
sorted_props (p ∷ ps) = insert_prop p (sorted_props ps)

abbrev value_json : Option Text → Json
value_json none = null
value_json (some s) = str s

abbrev blocked_items : List BlockEntry → Items
blocked_items [] = nil
blocked_items (e ∷ es) =
    cons
      (obj (
        field (codes "pattern") (str e.pattern) (
          field (codes "is_regex") (bool e.is_regex)
            (field (codes "test_mode") (bool e.test_mode) end))))
      (blocked_items es)

abbrev prop_items : List Prop → Items
prop_items [] = nil
prop_items (p ∷ ps) =
    cons (obj (field (codes "key") (str p.key) (field (codes "value") (value_json p.value) end)))
      (prop_items ps)

pub dump_response : List BlockEntry → List Prop → Response
dump_response blocked props = record {
  status = 200;
  body = obj (
      field (codes "blocked") (arr (blocked_items (sorted blocked)))
        (field (codes "props") (arr (prop_items (sorted_props props))) end));
}

module _ (t : Tables) where
  open t use {Db}

  pub dump_state : Option Text → Option Bool → Exec Db Response
  dump_state enable ready = when_enabled enable ready (do
    s ← get_state
    blocked ← lift (t.select_blocked s)
    props ← lift (t.select_props s)
    pure (dump_response blocked props))
