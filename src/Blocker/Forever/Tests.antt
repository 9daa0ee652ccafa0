-- ===== src/Blocker/Forever/Tests.antt =====
-- A service whose database comes up late, with no permission to write its PID file.
use postfixblocker.Prelude.{ℕ, ◌≡◌, refl, false, none, some, Option, List, [], ◌∷◌, length}
use postfixblocker.Text.{Text, codes}
use postfixblocker.Text.Decimal.{ℤ, pos}
use postfixblocker.Exec.{operational, Exn, Outcome, ok, raised}
use postfixblocker.Postfix.Maps.{BlockEntry, MapFiles, written}
use postfixblocker.Postfix.Control.{Command, Completed}
use postfixblocker.Blocker.{Row, Seen, fetch_entries}
use postfixblocker.Blocker.Start.{Answer, refused}
use postfixblocker.Blocker.Start.Ready.{no_engine, not_initialized}
use postfixblocker.Blocker.Forever.{Run, run_forever}
use postfixblocker.Blocker.Forever.Running.{IsStarting, IsRunning, run_forever-IsRunning}

abbrev down : Exn
down = record { kind = operational; message = codes "connection refused" }

abbrev no_driver : Answer ℕ
no_driver = record { get_engine = raised down; initialize = λ e. raised down }

abbrev not_up : Answer ℕ
not_up = record { get_engine = ok 7; initialize = λ e. raised down }

abbrev up : Answer ℕ
up = record { get_engine = ok 8; initialize = λ e. ok tt }

abbrev blank : MapFiles
blank = record { literal = []; regex = []; test_literal = []; test_regex = [] }

abbrev hash : List BlockEntry → ℤ
hash es = pos (length es)

abbrev no_postconf : Command → Outcome Completed
no_postconf c = raised down

abbrev attribute : Text → Option (Option ℤ)
attribute name = none

abbrev row : Row
row = record { pattern = codes "a"; is_regex = false; test_mode = some false }

abbrev entry : BlockEntry
entry = record { pattern = codes "a"; is_regex = false; test_mode = false }

abbrev seen_of : List Row → Seen
seen_of rows = record {
  level = none;
  marker_row = raised down;
  fetched = ok (ok rows);
  disk = λ n. written;
  sizes = none;
}

abbrev late : Run ℕ
late = record {
  pid_write = refused;
  pid = 4711;
  signal = raised down;
  answers = no_driver ∷ not_up ∷ up ∷ [];
  seen = seen_of [] ∷ seen_of (row ∷ []) ∷ [];
}

abbrev late-IsStarting : IsStarting ℕ hash no_postconf attribute none late
late-IsStarting = record {
  before = no_driver ∷ not_up ∷ [];
  last = up;
  later = [];
  engine = 7;
  answers = refl;
  failing = (no_engine refl refl, (not_initialized refl refl, tt));
  has_engine = refl;
  accepts = refl;
}

fetched_row : fetch_entries (ok (ok (row ∷ []))) ≡ ok (entry ∷ [])
unfolding fetch_entries
fetched_row = refl

run_forever-IsRunning_example :
    IsRunning ℕ hash no_postconf attribute none
      (run_forever ℕ hash no_postconf attribute none late none blank)
      2
      (entry ∷ [])
run_forever-IsRunning_example =
    run_forever-IsRunning ℕ hash no_postconf attribute none late late-IsStarting none blank
      (seen_of [] ∷ []) (seen_of (row ∷ [])) (entry ∷ []) refl (λ n. refl, tt) (λ n. refl)
      fetched_row
