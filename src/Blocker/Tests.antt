-- ===== src/Blocker/Tests.antt =====
-- The theorems on the loop at a table of one or two rows.
use mathlib.Core.List.{Permᴰ}
use postfixblocker.Prelude.{◌≡◌, refl, inl, true, false, Option, none, some, List, [], ◌∷◌, length}
use postfixblocker.Text.{Text, codes, ◌==◌}
use postfixblocker.Text.Decimal.{ℤ, pos}
use postfixblocker.Exec.{Outcome, ok}
use postfixblocker.Postfix.Maps.{
  BlockEntry, MapFiles, MapName, WriteOutcome, written, write_map_files,
}
use postfixblocker.Postfix.Maps.Laws.{write_map_files-written, full_at_once, full_at_once_raises}
use postfixblocker.Postfix.Control.{Command, Completed}
use postfixblocker.Blocker.Signature.{sorted, insert, entry_lt, text_lt}
use postfixblocker.Blocker.{Row, Service, Seen, fetch_entries, get_change_marker, is_changed}
use postfixblocker.Blocker.Rounds.{IsWritten}
use postfixblocker.Blocker.Failures.{after, round-round, round_retry, round_reverted}

abbrev blank : MapFiles
blank = record { literal = []; regex = []; test_literal = []; test_regex = [] }

abbrev all_written : MapName → WriteOutcome
all_written n = written

abbrev hash : List BlockEntry → ℤ
hash es = pos (length es)

abbrev run : Command → Outcome Completed
run c = ok (record { returncode = pos 0; stdout = [] })

abbrev attribute : Text → Option (Option ℤ)
attribute name = none

abbrev row_a : Row
row_a = record { pattern = codes "a"; is_regex = false; test_mode = some false }

abbrev row_b : Row
row_b = record { pattern = codes "b"; is_regex = true; test_mode = none }

abbrev entry_a : BlockEntry
entry_a = record { pattern = codes "a"; is_regex = false; test_mode = false }

abbrev entry_b : BlockEntry
entry_b = record { pattern = codes "b"; is_regex = true; test_mode = false }

abbrev seen_of : List Row → (MapName → WriteOutcome) → Seen
seen_of rows disk = record {
  level = some (codes "DEBUG");
  marker_row = ok (some (codes "12:00"), length rows);
  fetched = ok (ok rows);
  disk = disk;
  sizes = none;
}

-- The service after a round on the row `a`.
abbrev settled : Service
settled = record {
  last_marker = some (codes "12:00", 1);
  last_hash = some (pos 1);
  last_blocker_level = none;
  root_level = none;
  files = blank;
  commands = [];
}

fetched_ab : fetch_entries (ok (ok (row_a ∷ row_b ∷ []))) ≡ ok (entry_a ∷ entry_b ∷ [])
unfolding fetch_entries
fetched_ab = refl

fetched_ba : fetch_entries (ok (ok (row_b ∷ row_a ∷ []))) ≡ ok (entry_b ∷ entry_a ∷ [])
unfolding fetch_entries
fetched_ba = refl

fetched_a : fetch_entries (ok (ok (row_a ∷ []))) ≡ ok (entry_a ∷ [])
unfolding fetch_entries
fetched_a = refl

round-round_example :
    ((after hash run attribute none
        (seen_of (row_b ∷ row_a ∷ []) all_written)
        (after hash run attribute none (seen_of (row_a ∷ row_b ∷ []) all_written) settled)).files
      ≡ (after hash run attribute none (seen_of (row_a ∷ row_b ∷ []) all_written) settled).files)
    × ((after hash run attribute none (seen_of (row_b ∷ row_a ∷ []) all_written) (
          after hash run attribute none
            (seen_of (row_a ∷ row_b ∷ []) all_written)
            settled)).commands
        ≡ (after hash run attribute none
            (seen_of (row_a ∷ row_b ∷ []) all_written)
            settled).commands)
unfolding is_changed get_change_marker sorted insert entry_lt text_lt ◌==◌
round-round_example =
    round-round hash run attribute none (seen_of (row_a ∷ row_b ∷ []) all_written)
      (seen_of (row_b ∷ row_a ∷ []) all_written) settled (entry_a ∷ entry_b ∷ [])
      (entry_b ∷ entry_a ∷ []) fetched_ab fetched_ba (Permᴰ.swap refl refl) (inl refl) refl
      (write_map_files-written all_written (entry_a ∷ entry_b ∷ []) blank (λ n. refl))

round_retry_example :
    IsWritten
      (entry_a ∷ entry_b ∷ [])
      (after hash run attribute none
        (seen_of (row_a ∷ row_b ∷ []) all_written)
        (after hash run attribute none (seen_of (row_a ∷ row_b ∷ []) full_at_once) settled)).files
unfolding is_changed get_change_marker sorted insert entry_lt text_lt ◌==◌
round_retry_example =
    round_retry hash run attribute none (seen_of (row_a ∷ row_b ∷ []) full_at_once) all_written
      settled (entry_a ∷ entry_b ∷ []) fetched_ab refl
      (full_at_once_raises (entry_a ∷ entry_b ∷ []) blank) (λ n. refl)

round_reverted_example :
    (after hash run attribute none
      (seen_of (row_a ∷ []) all_written)
      (after hash run attribute none (seen_of (row_a ∷ row_b ∷ []) full_at_once) settled)).files
    ≡ (write_map_files full_at_once (entry_a ∷ entry_b ∷ []) blank).0
unfolding is_changed get_change_marker sorted insert entry_lt text_lt ◌==◌
round_reverted_example =
    round_reverted hash run attribute none (seen_of (row_a ∷ row_b ∷ []) full_at_once)
      (seen_of (row_a ∷ []) all_written) settled (entry_a ∷ entry_b ∷ []) (entry_a ∷ []) fetched_ab
      fetched_a refl (full_at_once_raises (entry_a ∷ entry_b ∷ []) blank) refl
