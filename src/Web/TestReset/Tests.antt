-- ===== src/Web/TestReset/Tests.antt =====
-- A reset of tables in memory.
use mathlib.Core.List.{Permᴰ}
use postfixblocker.Prelude.{◌≡◌, refl, true, false, none, some, Option, List, [], ◌∷◌, ◌++◌, length}
use postfixblocker.Text.{Text, codes, ◌==◌, strip, is_space}
use postfixblocker.Exec.{ok}
use postfixblocker.Postfix.Maps.{BlockEntry}
use postfixblocker.Web.Json.{Json, Fields, str, arr, obj, field, end, get_field, text_of}
use postfixblocker.Web.TestReset.{Prop, Tables, seeds_of, reset_state, dump_state}
use postfixblocker.Web.TestReset.Seeded.{IsTables, dicts}
use postfixblocker.Web.TestReset.Dumped.{dump_state-reset_state}

abbrev State : Type 0
State = List BlockEntry × List Prop

abbrev memory : Tables
memory = record {
  Db = State;
  delete_blocked = λ s. (ok (length s.0), ([], s.1));
  delete_props = λ s. (ok (length s.1), (s.0, []));
  insert =
      λ p r m s. (ok tt, (s.0 ++ record { pattern = p; is_regex = r; test_mode = m } ∷ [], s.1));
  select_blocked = λ s. ok s.0;
  select_props = λ s. ok s.1;
}

abbrev memory-IsTables : IsTables memory
memory-IsTables = record {
  blocked = λ s. s.0;
  props = λ s. s.1;
  delete_blocked_ok = λ s. refl;
  delete_blocked_rows = λ s. (refl, refl);
  delete_props_ok = λ s. refl;
  delete_props_rows = λ s. (refl, refl);
  insert_ok = λ p r m s. refl;
  insert_rows = λ p r m s. (refl, refl);
  select_blocked_lem = λ s. refl;
  select_props_lem = λ s. refl;
}

abbrev repr : Json → Text
repr v = codes "{}"

abbrev seed : Text → Fields
seed p = field (codes "pattern") (str p) end

-- Two patterns, and a blank one.
abbrev seeds : List Fields
seeds = seed (codes "b") ∷ seed (codes " ") ∷ seed (codes "a") ∷ []

abbrev others : List Fields
others = seed (codes "a") ∷ seed (codes "b") ∷ []

abbrev body : List Fields → Option Json
body fs = some (obj (field (codes "seeds") (arr (dicts fs)) end))

abbrev full : State
full = (
  record { pattern = codes "old"; is_regex = true; test_mode = false } ∷ [],
  record { key = codes "k"; value = none } ∷ [],
)

dump_state-reset_state_example :
    (dump_state memory
      (some (codes "1"))
      none
      (reset_state memory repr (some (codes "1")) none (body seeds) full).1).0
    ≡ (dump_state memory
        (some (codes "1"))
        none
        (reset_state memory repr (some (codes "1")) none (body others) ([], [])).1).0
unfolding ◌==◌ get_field seeds_of strip is_space text_of
dump_state-reset_state_example =
    dump_state-reset_state (some (codes "1")) none refl refl memory memory memory-IsTables
      memory-IsTables repr (body seeds) (body others) seeds others full ([], []) refl refl
      (Permᴰ.swap refl refl)
