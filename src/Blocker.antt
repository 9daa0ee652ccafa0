-- ===== src/Blocker.antt =====
-- postfix_blocker/services/blocker_service.py: the loop of `run_forever`, one round at a time. What
-- the database, the disk and the system answer in a round is its `Seen`; `hash` is Python's, `run`
-- ends a command, and `attribute` looks a name up in the module `logging`.
pub mod Signature
pub mod Rounds
pub mod Failures
pub mod Counted
pub mod Levels
pub mod Start
pub mod Refresh
pub mod Forever
mod Tests
use postfixblocker.Prelude.{
  ℕ, ◌≡◌, Bool, true, false, not, ◌&&◌, ◌||◌, Option, none, some, List, [], ◌∷◌, eqb, if◌then◌else◌,
  or_else,
}
use postfixblocker.Text.{Text, codes, ◌==◌, upper}
use postfixblocker.Text.Decimal.{ℤ, pos, negsuc, parse_int}
use postfixblocker.Exec.{
  Exn, Kind, type_error, other, Outcome, ok, raised, Exec, pure, raise, lift, get_state, try_except,
  handle, continue, ◌>>=◌, ◌>>◌,
}
use postfixblocker.Postfix.Maps.{BlockEntry, MapFiles, MapName, WriteOutcome, write_map_files}
use postfixblocker.Postfix.Control.{Command, Completed, reload_postfix}
use postfixblocker.Blocker.Signature.{sorted}

-- A row of the query: the pattern, `is_regex`, and `test_mode` where it is not null.
pub record Row : Type 0 where
  pub pattern : Text
  pub is_regex : Bool
  pub test_mode : Option Bool

abbrev pub to_entry : Row → BlockEntry
to_entry row = record {
  pattern = row.pattern;
  is_regex = row.is_regex;
  test_mode = or_else row.test_mode false;
}

abbrev pub to_entries : List Row → List BlockEntry
to_entries [] = []
to_entries (row ∷ rows) = to_entry row ∷ to_entries rows

-- `except TypeError` around `fetchall`.
abbrev rows_or_none : Exn → Outcome (List BlockEntry)
rows_or_none e = elim e.kind [ type_error ↦ ok [] | _ ↦ raised e ]

-- `_fetch_entries`, on how the query and then `fetchall` end.
pub fetch_entries : Outcome (Outcome (List Row)) → Outcome (List BlockEntry)
fetch_entries (raised e) = raised e
fetch_entries (ok (ok rows)) = ok (to_entries rows)
fetch_entries (ok (raised e)) = rows_or_none e

-- The newest `updated_at`, as text, and the number of rows.
abbrev pub Marker : Type 0
Marker = Text × ℕ

-- `_get_change_marker`, on how its query ends.
pub get_change_marker : Outcome (Option Text × ℕ) → Option Marker
get_change_marker (raised e) = none
get_change_marker (ok (max_ts, cnt)) = some (or_else max_ts [], cnt)

abbrev pub int_eq : ℤ → ℤ → Bool
int_eq (pos m) (pos n) = eqb m n
int_eq (negsuc m) (negsuc n) = eqb m n
int_eq (pos m) (negsuc n) = false
int_eq (negsuc m) (pos n) = false

abbrev pub is_last_hash : ℤ → Option ℤ → Bool
is_last_hash h none = false
is_last_hash h (some last) = int_eq h last

abbrev pub is_last_marker : Marker → Option Marker → Bool
is_last_marker m none = false
is_last_marker (ts, cnt) (some (last_ts, last_cnt)) = ts == last_ts && eqb cnt last_cnt

abbrev is_new_marker : Option Marker → Option Marker → Bool
is_new_marker none last = false
is_new_marker (some m) last = not (is_last_marker m last)

-- The condition of the loop for writing the maps.
pub is_changed : Option Marker → ℤ → Option Marker → Option ℤ → Bool
is_changed marker current_hash last_marker last_hash =
    is_new_marker marker last_marker || not (is_last_hash current_hash last_hash)

-- The variables of the loop, the level of the root logger, the map files, and the commands run.
pub record Service : Type 0 where
  pub last_marker : Option Marker
  pub last_hash : Option ℤ
  pub last_blocker_level : Option Text
  pub root_level : Option ℤ
  pub files : MapFiles
  pub commands : List Command

-- What a round meets: the result of `get_prop`, the two queries, the disk, and the sizes of the maps.
pub record Seen : Type 0 where
  pub level : Option Text
  pub marker_row : Outcome (Option Text × ℕ)
  pub fetched : Outcome (Outcome (List Row))
  pub disk : MapName → WriteOutcome
  pub sizes : Option (ℕ × ℕ)

abbrev io_error : Exn
io_error = record { kind = other; message = codes "OSError" }

abbrev io_result : MapFiles × Bool → Service → Outcome (Unit {0}) × Service
io_result (f, done) s = (if done then ok tt else raised io_error, record s { files = f })

-- The call of `write_map_files` in the loop.
pub write_step : (MapName → WriteOutcome) → List BlockEntry → Exec Service (Unit {0})
write_step disk entries s = io_result (write_map_files disk entries s.files) s

module _ (attribute : Text → Option (Option ℤ)) where
  -- `int(level_str)`, else the attribute of `logging`, else INFO; `none` is no number.
  abbrev pub level_number : Text → Option ℤ
  level_number s = elim (parse_int s) [
    | none ↦ or_else (attribute (upper s)) (some (pos 20))
    | some n ↦ some n
  ]

  abbrev is_last_level : Text → Option Text → Bool
  is_last_level s none = false
  is_last_level s (some last) = s == last

  abbrev set_level : Text → Option ℤ → Service → Service
  set_level s none v = v
  set_level s (some n) v = record v { last_blocker_level = some s; root_level = some n }

  pub apply_dynamic_log_level : Option Text → Service → Service
  apply_dynamic_log_level none v = v
  apply_dynamic_log_level (some s) v =
      if is_last_level s v.last_blocker_level then v else set_level s (level_number s) v

module _ (hash : List BlockEntry → ℤ) (run : Command → Outcome Completed)
    (attribute : Text → Option (Option ℤ)) (env : Option Text) where
  -- `reload_postfix()`, which raises nothing.
  pub reload_step : Option (ℕ × ℕ) → Exec Service (Unit {0})
  reload_step sizes s = (ok tt, record s { commands = (reload_postfix run env sizes s.commands).1 })

  -- `last_hash = current_hash; last_marker = marker`.
  abbrev remember : Option Marker → ℤ → Exec Service (Unit {0})
  remember marker current_hash s =
      (ok tt, record s { last_hash = some current_hash; last_marker = marker })

  -- The loop's body for entries that were fetched.
  pub sync_step : Seen → List BlockEntry → Exec Service (Unit {0})
  sync_step seen entries s =
      if is_changed (get_change_marker seen.marker_row) (hash (sorted entries)) s.last_marker
        s.last_hash
      then (do
        write_step seen.disk entries
        reload_step seen.sizes
        remember (get_change_marker seen.marker_row) (hash (sorted entries)))
          s
      else (ok tt, s)

  level_step : Option Text → Exec Service (Unit {0})
  level_step level s = (ok tt, apply_dynamic_log_level attribute level s)

  -- The body of the loop with its handlers, which log every exception.
  pub round : Seen → Service → Service
  round seen s =
      (try_except
        (do
          level_step seen.level
          entries ← lift (fetch_entries seen.fetched)
          sync_step seen entries)
        (λ e. pure tt) s).1

  -- Several rounds, one after the other.
  pub rounds : List Seen → Service → Service
  unfolding round
  rounds [] s = s
  rounds (seen ∷ rest) s = rounds rest (round seen s)

  -- The state before the first round.
  abbrev pub initial : MapFiles → Service
  initial files = record {
    last_marker = none;
    last_hash = none;
    last_blocker_level = none;
    root_level = none;
    files = files;
    commands = [];
  }
