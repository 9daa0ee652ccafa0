-- ===== src/Blocker/Forever.antt =====
-- `run_forever` of postfix_blocker/services/blocker_service.py, from its start to some round of its
-- endless loop. `E` is the type of engines.
pub mod Running
mod Tests
use postfixblocker.Prelude.{ℕ, ◌≡◌, Bool, true, false, Option, none, some, List, [], ◌∷◌}
use postfixblocker.Text.{Text}
use postfixblocker.Text.Decimal.{ℤ}
use postfixblocker.Exec.{Outcome, ok, raised, Exec}
use postfixblocker.Postfix.Maps.{BlockEntry, MapFiles}
use postfixblocker.Postfix.Control.{Command, Completed, has_postfix_pcre}
use postfixblocker.Blocker.{Service, Seen, rounds, initial}
use postfixblocker.Blocker.Start.{PidOutcome, write_pid_file, Answer, Start, init_engine_and_db}

-- What a run meets: how the PID file is written, whether `signal.signal` raises, the passes of the wait
-- for the database, and the rounds of the loop so far.
pub record Run (E : Type 0) : Type 0 where
  pub pid_write : PidOutcome
  pub pid : ℕ
  pub signal : Outcome (Unit {0})
  pub answers : List (Answer E)
  pub seen : List Seen

-- The PID file, whether SIGUSR1 is handled, whether Postfix knows PCRE, the wait for the database, and
-- the loop's variables, once the loop runs.
pub record Process (E : Type 0) : Type 0 where
  pub pid_file : Option Text
  pub is_listening : Bool
  pub pcre_available : Outcome Bool
  pub start : Start E
  pub service : Option Service

-- `setup_signal_ipc`, which only logs an exception.
pub setup_signal_ipc : Outcome (Unit {0}) → Bool
setup_signal_ipc (ok _) = true
setup_signal_ipc (raised e) = false

module _ (E : Type 0) (hash : List BlockEntry → ℤ) (run : Command → Outcome Completed)
    (attribute : Text → Option (Option ℤ)) (env : Option Text) where
  -- The state before the first round, behind the commands of the check for PCRE.
  abbrev pub begun : MapFiles → List Command → Service
  begun files commands = record (initial hash run attribute env files) { commands = commands }

  abbrev loop : Option E → List Seen → Service → Option Service
  loop none seen s = none
  loop (some engine) seen s = some (rounds hash run attribute env seen s)

  pub run_forever : Run E → Option Text → MapFiles → Process E
  run_forever r old files =
      let (pcre, commands) = has_postfix_pcre run [] in
      let (engine, start) =
        init_engine_and_db E r.answers (record { engine = none; events = [] }) in
      record {
        pid_file = write_pid_file r.pid_write r.pid old;
        is_listening = setup_signal_ipc r.signal;
        pcre_available = pcre;
        start = start;
        service = loop engine r.seen (begun files commands);
      }
