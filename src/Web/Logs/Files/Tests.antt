-- ===== src/Web/Logs/Files/Tests.antt =====
-- The theorems for three small files.
use postfixblocker.Prelude.{◌≡◌, refl, false, none, some, [], ◌∷◌, arith, if◌then◌else◌}
use postfixblocker.Text.{Text, codes, ◌==◌, strip, lower, is_space, is_break, join}
use postfixblocker.Text.Decimal.{pos, show_int}
use postfixblocker.Text.Lines.{lf, split_lf}
use postfixblocker.Exec.{ok}
use postfixblocker.Db.Props.{api}
use postfixblocker.Web.Json.{num, str}
use postfixblocker.Web.Auth.{Session, Env}
use postfixblocker.Web.Logs.{service_of}
use postfixblocker.Web.Logs.Files.{Files, LogPaths, path_of, log_reply, tail_log, lines_count}
use postfixblocker.Web.Logs.Files.Confined.{IsSameLogs, tail_log-confined, tail_log-lines_count}

-- Two lines, of which the second is empty.
abbrev content : Text
content = 97 ∷ 10 ∷ 10 ∷ []

abbrev shadow : Text
shadow = codes "/etc/shadow"

abbrev files : Files
files = record {
  size = λ p. some 3;
  read = λ p. if p == shadow then ok (codes "secret") else ok content;
}

abbrev other_files : Files
other_files = record { size = λ p. some 3; read = λ p. ok content }

abbrev paths : LogPaths
paths = record {
  api_config = none;
  api_env = some [];
  blocker_config = some (codes "/tmp/b");
  blocker_env = none;
  mail_log_file = none;
}

abbrev env : Env
env = record { api_auth_required = none; admin_username = none }

abbrev session : Session
session = record { admin_user = none; pending_username = none; webauthn_current_challenge = none }

is_same : IsSameLogs files other_files paths
unfolding ◌==◌
is_same = record {
  at_api = (refl, refl);
  at_blocker = (refl, refl);
  at_mail = record {
    at_maillog = (refl, refl);
    at_mail_log = (refl, refl);
    at_variable = λ path e. absurd (ground (arith, e));
  };
}

tail_log-confined_example :
    (tail_log files paths env (some shadow) none session
      ≡ tail_log other_files paths env (some shadow) none session)
    × (lines_count files paths env (some shadow) session
        ≡ lines_count other_files paths env (some shadow) session)
tail_log-confined_example =
    tail_log-confined files other_files paths env is_same (some shadow) none session

tail_log-lines_count_example :
    (lines_count files paths env (some (codes " API")) session
      ≡ (ok (log_reply api (path_of files paths api) (codes "count") (num (pos 2)) false), session))
    × (tail_log files paths env (some (codes " API")) (some (show_int (pos 2))) session ≡ (
      ok (
          log_reply api
            (path_of files paths api)
            (codes "content")
            (str (join lf (codes "a" ∷ [] ∷ [])))
            false),
      session,
    ))
unfolding path_of ◌==◌ strip lower is_space split_lf is_break service_of
tail_log-lines_count_example =
    tail_log-lines_count files paths env (some (codes " API")) api content session refl refl refl
      refl (refl, (refl, (refl, tt))) (omega arith) (omega arith)
