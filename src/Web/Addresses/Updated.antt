-- ===== src/Web/Addresses/Updated.antt =====
-- What `update_address` makes of a body.
use postfixblocker.Prelude.{
  ℕ, ◌≡◌, refl, ◌∙◌, Bool, false, not, ◌||◌, Option, none, some, List, [], ◌∷◌, ◌++◌, ap₂, map,
  arith, eqb, if◌then◌else◌, or_else, is_some, any, Bool-cases, inl, inr,
}
use postfixblocker.Text.{Text, codes, is_empty, strip}
use postfixblocker.Exec.{Outcome, ok}
use postfixblocker.Web.Json.{Json, Fields, str, obj, get_field, stripped_or, truthy}
use postfixblocker.Web.Auth.{Env}
use postfixblocker.Web.Addresses.{
  Updates, Blocked, Api, collect_updates, has_updates, update_fields, update_address,
}
use postfixblocker.Web.Addresses.Laws.{
  Address, update_where, IsBlocked, IsAllowed, Did, signalled, update_address-collected,
}

-- A body's field `pattern` that is missing or a text, and the pattern that it gives a row.
abbrev pub pattern_field : Option Text → Option Json
pattern_field none = none
pattern_field (some s) = some (str s)

abbrev pub new_pattern : Option Text → Text → Text
new_pattern none old = old
new_pattern (some s) old = if is_empty (strip s) then old else strip s

abbrev pub new_flag : Option Json → Bool → Bool
new_flag none old = old
new_flag (some v) old = truthy v

-- The row with the id `k` after the request, and the other rows.
abbrev pub changed : ℕ → Option Text → Fields → Address → Address
changed k pattern fields a =
    if eqb a.id k
    then record a {
      pattern = new_pattern pattern a.pattern;
      is_regex = new_flag (get_field (codes "is_regex") fields) a.is_regex;
      test_mode = new_flag (get_field (codes "test_mode") fields) a.test_mode;
    }
    else a

-- The body has something to set.
abbrev pub sets_anything : Option Text → Fields → Bool
sets_anything pattern fields =
    not (is_empty (strip (or_else pattern [])))
    || is_some (get_field (codes "is_regex") fields)
    || is_some (get_field (codes "test_mode") fields)

abbrev truthy_field : Option Json → Option Bool
truthy_field none = none
truthy_field (some v) = some (truthy v)

abbrev text_field : Text → Option Text
text_field s = if is_empty s then none else some s

abbrev updates_of : Option Text → Fields → Updates
updates_of pattern fields = record {
  pattern = text_field (strip (or_else pattern []));
  is_regex = truthy_field (get_field (codes "is_regex") fields);
  test_mode = truthy_field (get_field (codes "test_mode") fields);
}

stripped_or-pattern :
    (pattern : Option Text)
    → stripped_or (pattern_field pattern) [] ≡ ok (strip (or_else pattern []))
unfolding stripped_or
stripped_or-pattern none = refl
stripped_or-pattern (some []) = refl
stripped_or-pattern (some (c ∷ s)) = refl

collect_updates_lem :
    (fields : Fields) (pattern : Option Text)
    → get_field (codes "pattern") fields ≡ pattern_field pattern
    → collect_updates fields ≡ ok (updates_of pattern fields)
unfolding collect_updates
collect_updates_lem fields pattern e = ground (arith, e, stripped_or-pattern pattern)

or_else-text_field : (s old : Text) → or_else (text_field s) old ≡ (if is_empty s then old else s)
or_else-text_field [] old = refl
or_else-text_field (c ∷ s) old = refl

pattern_lem :
    (pattern : Option Text) (old : Text)
    → or_else (text_field (strip (or_else pattern []))) old ≡ new_pattern pattern old
unfolding strip
pattern_lem none old = refl
pattern_lem (some s) old = or_else-text_field (strip s) old

flag_lem : (o : Option Json) (old : Bool) → or_else (truthy_field o) old ≡ new_flag o old
flag_lem none old = refl
flag_lem (some v) old = refl

update_where-changed :
    (k : ℕ) (pattern : Option Text) (fields : Fields) (a : Address)
    → update_where k (updates_of pattern fields) a ≡ changed k pattern fields a
update_where-changed k pattern fields a =
    rw
      (
        pattern_lem pattern a.pattern,
        flag_lem (get_field (codes "is_regex") fields) a.is_regex,
        flag_lem (get_field (codes "test_mode") fields) a.test_mode,
      )
      refl

is_some-text_field : (s : Text) → is_some (text_field s) ≡ not (is_empty s)
is_some-text_field [] = refl
is_some-text_field (c ∷ s) = refl

is_some-truthy_field : (o : Option Json) → is_some (truthy_field o) ≡ is_some o
is_some-truthy_field none = refl
is_some-truthy_field (some v) = refl

has_updates-sets :
    (pattern : Option Text) (fields : Fields)
    → has_updates (updates_of pattern fields) ≡ sets_anything pattern fields
has_updates-sets pattern fields =
    rw
      (
        is_some-text_field (strip (or_else pattern [])),
        is_some-truthy_field (get_field (codes "is_regex") fields),
        is_some-truthy_field (get_field (codes "test_mode") fields),
      )
      refl

map-changed :
    (k : ℕ) (pattern : Option Text) (fields : Fields) (rows : List Address)
    → map (update_where k (updates_of pattern fields)) rows ≡ map (changed k pattern fields) rows
map-changed k pattern fields [] = refl
map-changed k pattern fields (a ∷ rows) =
    ap₂ (λ x l. x ∷ l) (update_where-changed k pattern fields a) (map-changed k pattern fields rows)

module _ (b : Blocked) (laws : IsBlocked b) (env : Env) where
  open laws use {rows}

  update_address-nothing :
      (ready : Option Bool) (pid : Outcome Text) (k : ℕ) (fields : Fields) (u : Updates)
      (w : Api b env)
      → IsAllowed b laws env ready w
      → collect_updates fields ≡ ok u
      → has_updates u ≡ false
      → Did b laws env
          (update_address b env ready pid k (some (obj fields)) w)
          400
          (rows w.db)
          w.signals
  unfolding update_address update_fields
  update_address-nothing ready pid k fields u w h e nothing =
      rw (h.allowed, h.is_ready, e, nothing) (record { replied = refl; left = refl; sent = refl })

  -- For a client that may call the route, a database that is ready, a table that answers, and a body
  -- whose `pattern` is missing or a text: a body with no `is_regex`, no `test_mode` and no pattern,
  -- or only a blank one, is answered by 400, and an id that no row has by 404, and neither changes
  -- anything. Else the reply is 200; the rows with the id have the body's pattern without the blanks
  -- around it and the truth values of its `is_regex` and `test_mode`, and keep what the body does not
  -- set; every other row is as it was; and the service is signalled where its PID file reads as a
  -- number.
  pub update_address-rows :
      (ready : Option Bool) (pid : Outcome Text) (k : ℕ) (fields : Fields) (pattern : Option Text)
      (w : Api b env)
      → IsAllowed b laws env ready w
      → get_field (codes "pattern") fields ≡ pattern_field pattern
      → if sets_anything pattern fields
        then if any (λ a. eqb a.id k) (rows w.db)
          then Did b laws env
              (update_address b env ready pid k (some (obj fields)) w)
              200
              (map (changed k pattern fields) (rows w.db))
              (w.signals ++ signalled b laws env pid)
          else Did b laws env
              (update_address b env ready pid k (some (obj fields)) w)
              404
              (rows w.db)
              w.signals
        else Did b laws env
            (update_address b env ready pid k (some (obj fields)) w)
            400
            (rows w.db)
            w.signals
  update_address-rows ready pid k fields pattern w h e =
      let collected = collect_updates_lem fields pattern e in
      let sets = has_updates-sets pattern fields in
      elim (Bool-cases (sets_anything pattern fields)) [
        | inr nothing ↦ rw nothing (
            update_address-nothing ready pid k fields (updates_of pattern fields) w h collected
              (sets ∙ nothing))
        | inl anything ↦
            rw (anything, ← map-changed k pattern fields (rows w.db))
              (update_address-collected b laws env ready pid k fields (updates_of pattern fields) w
                h collected (sets ∙ anything))
      ]
