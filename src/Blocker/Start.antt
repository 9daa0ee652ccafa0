-- ===== src/Blocker/Start.antt =====
-- The start of the service in postfix_blocker/services/blocker_service.py: the PID file, and the wait
-- for the database. `E` is the type of engines.
pub mod Pid
pub mod Ready
mod Tests
use postfixblocker.Prelude.{ℕ, ◌≡◌, Option, none, some, List, [], ◌∷◌, ◌++◌}
use postfixblocker.Text.{Text}
use postfixblocker.Text.Decimal.{pos, show_int}
use postfixblocker.Exec.{Outcome, ok, raised, Exec, pure, lift, get_state, continue, ◌>>=◌, ◌>>◌}

-- How the write of the PID file ends: nothing is opened, some of the text is written, or all of it.
pub data PidOutcome : Type 0 where
  refused : PidOutcome
  cut : Text → PidOutcome
  complete : PidOutcome

-- `write_pid_file`, on the file that was there; its exceptions are only logged.
pub write_pid_file : PidOutcome → ℕ → Option Text → Option Text
write_pid_file refused pid old = old
write_pid_file (cut part) pid old = some part
write_pid_file complete pid old = some (show_int (pos pid))

module _ (E : Type 0) where
  -- What a pass of the loop meets: the ends of `get_engine` and of `init_db`.
  pub record Answer : Type 0 where
    pub get_engine : Outcome E
    pub initialize : E → Outcome (Unit {0})

  pub data Event : Type 0 where
    initialized : E → Event
    slept : Event

  -- The variable `engine`, and what was done.
  pub record Start : Type 0 where
    pub engine : Option E
    pub events : List Event

  abbrev note : Event → Exec Start (Unit {0})
  note e s = (ok tt, record s { events = s.events ++ e ∷ [] })

  abbrev set_engine : E → Exec Start (Unit {0})
  set_engine e s = (ok tt, record s { engine = some e })

  -- `if engine is None: engine = get_engine()`.
  pub require_engine : Outcome E → Option E → Exec Start E
  require_engine answer none = do e ← lift answer; set_engine e; pure e
  require_engine answer (some e) = pure e

  -- The body of `try` in the loop.
  pub try_init : Answer → Exec Start E
  try_init a = do
    s ← get_state
    e ← require_engine a.get_engine s.engine
    note (initialized e)
    lift (a.initialize e)
    pure e

  -- The end of a pass: `return engine`, or a sleep and the other passes.
  abbrev finish : (Start → Option E × Start) → Outcome E × Start → Option E × Start
  finish next (ok e, s) = (some e, s)
  finish next (raised x, s) = next (record s { events = s.events ++ slept ∷ [] })

  -- `_init_engine_and_db`, on what its passes meet; there is no engine while it still tries.
  pub init_engine_and_db : List Answer → Start → Option E × Start
  init_engine_and_db [] s = (none, s)
  init_engine_and_db (a ∷ rest) s = finish (init_engine_and_db rest) (try_init a s)
