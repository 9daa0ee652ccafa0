-- ===== src/Postfix/Control.antt =====
-- postfix_blocker/postfix/control.py. `run` stands for `subprocess.run`: the exit code of a command,
-- with its output, or the exception. The state is the list of the commands that were started.
pub mod Laws
mod Tests
use postfixblocker.Prelude.{
  ℕ, zero, suc, Bool, true, false, ◌&&◌, ◌||◌, not, Option, none, some, List, [], ◌∷◌, ◌++◌, map,
  eqb, if◌then◌else◌, any, or_else, is_some,
}
use postfixblocker.Text.{Text, codes, ◌==◌, contains, lower}
use postfixblocker.Text.Decimal.{ℤ, pos, negsuc}
use postfixblocker.Exec.{
  Kind, value_error, file_not_found, other, Exn, Outcome, ok, raised, Exec, pure, raise, get_state,
  put_state, try_except, continue, handle, ◌>>=◌, ◌>>◌,
}

abbrev pub Command : Type 0
Command = List Text

abbrev pub postmap : Text
postmap = codes "/usr/sbin/postmap"

abbrev pub postfix : Text
postfix = codes "/usr/sbin/postfix"

abbrev pub postconf : Text
postconf = codes "/usr/sbin/postconf"

-- The allowlist of `_run_fixed`.
pub is_allowed : Text → Bool
is_allowed exe = exe == postmap || exe == postfix || exe == postconf

abbrev pub executable : Command → Text
executable [] = []
executable (exe ∷ args) = exe

-- A finished process.
pub record Completed : Type 0 where
  pub returncode : ℤ
  pub stdout : Text

abbrev pub is_zero : ℤ → Bool
is_zero (pos zero) = true
is_zero _ = false

-- `Path(dir) / name`, for a directory in pathlib's normal form.
abbrev pub path_join : Text → Text → Text
path_join [] name = name
path_join (c ∷ dir) name = (c ∷ dir) ++ (b'/' ∷ name)

abbrev pub literal_path : Option Text → Text
literal_path env = path_join (or_else env (codes "/etc/postfix")) (codes "blocked_recipients")

abbrev pub test_literal_path : Option Text → Text
test_literal_path env =
    path_join (or_else env (codes "/etc/postfix")) (codes "blocked_recipients_test")

-- The warning at the end of `reload_postfix`.
pub data Warning : Type 0 where
  quiet not_ready nonzero_codes : Warning

-- What `reload_postfix` ends with: the exit codes and the warning, or the exception that it swallowed.
pub data Reload : Type 0 where
  finished : ℤ → ℤ → Option ℤ → Warning → Reload
  transient : Exn → Reload

abbrev no_failure : Option ℤ → Bool
no_failure none = true
no_failure (some rc) = is_zero rc

-- The sizes of the two map files, -1 where `stat` raises.
abbrev is_some_empty : Option (ℕ × ℕ) → Bool
is_some_empty none = false
is_some_empty (some (size1, size2)) = eqb size1 0 || eqb size2 0

pub warning_for : Option (ℕ × ℕ) → ℤ → ℤ → ℤ → Option ℤ → Warning
warning_for sizes status rc1 rc1b rc2 =
    if is_zero rc1 && is_zero rc1b && no_failure rc2
    then quiet
    else if is_some_empty sizes && not (is_zero status)
    then not_ready
    else nonzero_codes

module _ (run : Command → Outcome Completed) where
  pub run_fixed : Command → Exec (List Command) Completed
  run_fixed cmd log =
      if is_allowed (executable cmd)
      then (run cmd, log ++ cmd ∷ [])
      else (raised (record { kind = value_error; message = executable cmd }), log)

  -- `postfix status`; an exception counts as exit code 1.
  status_rc : Exec (List Command) ℤ
  status_rc =
      try_except (do done ← run_fixed (postfix ∷ codes "status" ∷ []); pure done.returncode)
        (λ e. pure (pos 1))

  reload_if : Bool → Exec (List Command) (Option ℤ)
  reload_if true = do done ← run_fixed (postfix ∷ codes "reload" ∷ []); pure (some done.returncode)
  reload_if false = pure none

  -- `env` is the variable POSTFIX_DIR.
  pub reload_postfix : Option Text → Option (ℕ × ℕ) → Exec (List Command) Reload
  reload_postfix env sizes =
      try_except
        (do
          rc1 ← run_fixed (postmap ∷ literal_path env ∷ [])
          rc1b ← run_fixed (postmap ∷ test_literal_path env ∷ [])
          status ← status_rc
          rc2 ← reload_if (is_zero status)
          pure (
              finished rc1.returncode rc1b.returncode rc2
                (warning_for sizes status rc1.returncode rc1b.returncode rc2)))
        (λ e. pure (transient e))

  pub has_postfix_pcre : Exec (List Command) Bool
  has_postfix_pcre =
      try_except
        (do
          res ← run_fixed (postconf ∷ codes "-m" ∷ [])
          if is_zero res.returncode
              then pure (contains (codes "pcre") (lower res.stdout))
              else raise (record { kind = other; message = [] }))
        (λ e. pure false)
