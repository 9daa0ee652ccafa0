-- ===== src/Blocker/Start/Pid.antt =====
-- That the API finds the service by the PID file.
use postfixblocker.Prelude.{ℕ, ◌≡◌, refl, ap, ◌∙◌, Option, none, some, [], ◌∷◌, ◌++◌}
use postfixblocker.Text.{Text, strip}
use postfixblocker.Text.Strip.{strip-eq_self}
use postfixblocker.Text.Decimal.{pos, show_int, parse_int}
use postfixblocker.Text.Decimal.RoundTrip.{parse_int-show_int, show_int-HasNoSpace}
use postfixblocker.Exec.{file_not_found, Outcome, ok, raised}
use postfixblocker.Web.Addresses.Laws.{notify_blocker_refresh-ok}
use postfixblocker.Web.Auth.{Env}
use postfixblocker.Web.Addresses.{Blocked, Api, notify_blocker_refresh}
use postfixblocker.Blocker.Start.{complete, write_pid_file}

-- What reading a file gives, where it is there.
abbrev pub read_pid : Option Text → Outcome Text
read_pid none = raised (record { kind = file_not_found; message = [] })
read_pid (some content) = ok content

read_back : (pid : ℕ) → parse_int (strip (show_int (pos pid))) ≡ some (pos pid)
read_back pid =
    ap parse_int (strip-eq_self (show_int (pos pid)) (show_int-HasNoSpace (pos pid)))
    ∙ parse_int-show_int (pos pid)

-- Once the service has written its PID file, whatever that file held, a request of the API that notifies the
-- service signals exactly the process of the service.
pub notify_blocker_refresh-write_pid_file :
    (b : Blocked) (env : Env) (pid : ℕ) (old : Option Text) (w : Api b env)
    → notify_blocker_refresh b env (read_pid (write_pid_file complete pid old)) w
      ≡ (ok tt, record w { signals = w.signals ++ pos pid ∷ [] })
unfolding write_pid_file
notify_blocker_refresh-write_pid_file b env pid old w =
    notify_blocker_refresh-ok b env (show_int (pos pid)) w ∙ rw (read_back pid) refl
