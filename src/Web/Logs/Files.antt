-- ===== src/Web/Logs/Files.antt =====
-- `tail_log` and `lines_count` of postfix_blocker/web/routes_logs.py.
pub mod Confined
mod Tests
use postfixblocker.Prelude.{
  ℕ, ◌≡◌, Bool, true, false, Option, none, some, [], ◌∷◌, List, length, if◌then◌else◌, or_else,
  is_some,
}
use postfixblocker.Text.{Text, codes, strip, lower}
use postfixblocker.Text.Decimal.{pos}
use postfixblocker.Text.Lines.{split_lf}
use postfixblocker.Exec.{Outcome, ok, raised, Exec, pure, raise}
use postfixblocker.Postfix.LogLevel.{FileSizes, resolve_mail_log_path}
use postfixblocker.Db.Props.{Service, api, blocker, postfix, service_name}
use postfixblocker.Web.Json.{Json, Fields, bool, num, str, obj, field, end}
use postfixblocker.Web.Http.{Response, abort}
use postfixblocker.Web.Auth.{Session, Env, guarded, text_or}
use postfixblocker.Web.Logs.{service_of, tail_lines, tail_file}

-- The files: the size of the one at a path, where there is one, and its text, with the line ends that Python's text mode
-- makes of others.
pub record Files : Type 0 where
  pub size : FileSizes
  pub read : Text → Outcome Text

-- `Path(path).exists()`.
abbrev pub is_there : Files → Text → Bool
is_there files path = is_some (files.size path)

-- API_LOG_FILE and BLOCKER_LOG_FILE in `app.config` and in the environment, and the variable
-- MAIL_LOG_FILE.
pub record LogPaths : Type 0 where
  pub api_config : Option Text
  pub api_env : Option Text
  pub blocker_config : Option Text
  pub blocker_env : Option Text
  pub mail_log_file : Option Text

abbrev pub api_path : LogPaths → Text
api_path paths = text_or paths.api_config (text_or paths.api_env (codes "./logs/api.log"))

abbrev pub blocker_path : LogPaths → Text
blocker_path paths =
    text_or paths.blocker_config (text_or paths.blocker_env (codes "./logs/blocker.log"))

unfoldable pub path_of : Files → LogPaths → Service → Text
path_of files paths api = api_path paths
path_of files paths blocker = blocker_path paths
path_of files paths postfix = resolve_mail_log_path files.size paths.mail_log_file

abbrev pub log_reply : Service → Text → Text → Json → Bool → Response
log_reply s path key value missing = record {
  status = 200;
  body = obj (
      field (codes "name") (str (service_name s)) (
        field (codes "path") (str path)
          (field key value (field (codes "missing") (bool missing) end))));
}

-- `(args.get('name') or '').strip().lower()`, and the logs of that name.
abbrev pub log_of : Option Text → Option Service
log_of name = service_of (lower (strip (or_else name [])))

abbrev unknown : Exec Session Response
unknown = raise (abort 400 (codes "unknown log name"))

-- The content of the reply, where reading may raise.
abbrev pub tail_content : Outcome Text → ℕ → Text
tail_content (ok s) lines = tail_file s (pos lines)
tail_content (raised e) lines = []

-- The loop over the lines of the file.
abbrev pub count_content : Outcome Text → ℕ
count_content (ok s) = length (split_lf s)
count_content (raised e) = 0

module _ (files : Files) (paths : LogPaths) (env : Env) where
  pub tail_reply : Service → ℕ → Response
  tail_reply s lines =
      let path = path_of files paths s in
      if is_there files path
      then log_reply s path (codes "content") (str (tail_content (files.read path) lines)) false
      else log_reply s path (codes "content") (str []) true

  unfoldable pub tail_log : Option Text → Option Text → Exec Session Response
  tail_log name lines =
      guarded (λ s. s) env
        (elim (log_of name) [ none ↦ unknown | some s ↦ pure (tail_reply s (tail_lines lines)) ])

  pub count_reply : Service → Response
  count_reply s =
      let path = path_of files paths s in
      if is_there files path
      then log_reply s path (codes "count") (num (pos (count_content (files.read path)))) false
      else log_reply s path (codes "count") (num (pos 0)) true

  unfoldable pub lines_count : Option Text → Exec Session Response
  lines_count name =
      guarded (λ s. s) env (elim (log_of name) [ none ↦ unknown | some s ↦ pure (count_reply s) ])
