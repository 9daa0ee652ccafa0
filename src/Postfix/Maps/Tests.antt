-- ===== src/Postfix/Maps/Tests.antt =====
-- Runs of the map writer, and its theorems at one of them.
use postfixblocker.Prelude.{◌≡◌, refl, true, false, List, [], ◌∷◌, ◌++◌}
use postfixblocker.Text.{codes}
use postfixblocker.Text.Lines.{lf, terminate}
use postfixblocker.Postfix.Maps.{
  BlockEntry, MapFiles, MapName, literal, test_regex, content_of, WriteOutcome, written, cut,
  add_entry, gather, render, write_lines, write_map_files,
}
use postfixblocker.Postfix.Maps.Laws.{write_map_files-expected}

abbrev blank : MapFiles
blank = record { literal = []; regex = []; test_literal = []; test_regex = [] }

abbrev all_written : MapName → WriteOutcome
all_written n = written

abbrev sample : List BlockEntry
sample =
    record { pattern = codes "a@x.org"; is_regex = false; test_mode = false }
    ∷ record { pattern = codes ".*@spam"; is_regex = true; test_mode = true }
    ∷ record { pattern = codes "b@x.org"; is_regex = false; test_mode = false }
    ∷ []

sample_run : (write_map_files all_written sample blank).1 ≡ true
unfolding write_map_files write_lines gather add_entry render
sample_run = refl

sample_literal :
    content_of (write_map_files all_written sample blank).0 literal
    ≡ codes "a@x.org" ++ (9 ∷ codes "REJECT") ++ lf ++ codes "b@x.org" ++ (9 ∷ codes "REJECT") ++ lf
unfolding write_map_files write_lines gather add_entry render
sample_literal = refl

-- A full disk at the second file: the first is complete, the second is cut, the rest is untouched.
full_disk :
    write_map_files (λ n. elim n [ MapName.regex ↦ cut 0 | _ ↦ written ]) [] blank ≡ (blank, false)
unfolding write_map_files write_lines gather add_entry render
full_disk = refl

write_map_files-expected_example :
    content_of (write_map_files all_written sample blank).0 test_regex
    ≡ terminate (codes "/.*@spam/ REJECT" ∷ [])
write_map_files-expected_example =
    write_map_files-expected all_written sample blank test_regex sample_run

abbrev two_lines : List BlockEntry
two_lines =
    record { pattern = codes "a" ++ lf ++ codes "b"; is_regex = false; test_mode = false } ∷ []

two_lines_run : (write_map_files all_written two_lines blank).1 ≡ true
unfolding write_map_files write_lines gather add_entry render
two_lines_run = refl
