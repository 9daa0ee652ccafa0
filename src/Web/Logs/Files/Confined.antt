-- ===== src/Web/Logs/Files/Confined.antt =====
-- What the two routes read, and that they agree on the number of lines.
use postfixblocker.Prelude.{
  ℕ, suc, ◌-◌, ◌≤◌, ◌≡◌, refl, ap, true, false, ◌&&◌, Option, some, [], ◌∷◌, List, length, eqb, All,
  Option-cases, inl, inr, arith, drop,
}
use postfixblocker.Text.{Text, codes, is_break, splitlines, join}
use postfixblocker.Text.Decimal.{pos, show_int}
use postfixblocker.Text.Decimal.RoundTrip.{parse_int-show_int}
use postfixblocker.Text.Lines.{lf, split_lf}
use postfixblocker.Exec.{ok}
use postfixblocker.Db.Props.{Service, api, blocker, postfix}
use postfixblocker.Postfix.LogLevel.MailLog.{
  AtLogs, resolve_mail_log_path-AtLogs, resolve_mail_log_path-same,
}
use postfixblocker.Web.Json.{num, str}
use postfixblocker.Web.Auth.{Session, Env, is_auth_required, is_unset}
use postfixblocker.Web.Logs.{tail_lines, tail_slice, tail_file}
use postfixblocker.Web.Logs.Files.{
  Files, is_there, LogPaths, api_path, blocker_path, path_of, log_of, log_reply, tail_reply,
  tail_log, count_reply, lines_count,
}

-- The same file, or none, at a path.
abbrev pub IsSameFile : Files → Files → Text → Type 0
IsSameFile f g path = (f.size path ≡ g.size path) × (f.read path ≡ g.read path)

-- The same at the paths of the logs of the API and the service, at MAIL_LOG_FILE, and at the two
-- paths where the mail log usually is.
pub record IsSameLogs (f g : Files) (paths : LogPaths) : Type 0 where
  pub at_api : IsSameFile f g (api_path paths)
  pub at_blocker : IsSameFile f g (blocker_path paths)
  pub at_mail : AtLogs (IsSameFile f g) paths.mail_log_file

module _ (f g : Files) (paths : LogPaths) (env : Env) (same : IsSameLogs f g paths) where
  path_of-same : (s : Service) → path_of f paths s ≡ path_of g paths s
  unfolding path_of
  path_of-same api = refl
  path_of-same blocker = refl
  path_of-same postfix = resolve_mail_log_path-same f.size g.size paths.mail_log_file (record {
    at_maillog = same.at_mail.at_maillog.0;
    at_mail_log = same.at_mail.at_mail_log.0;
    at_variable = λ path e. (same.at_mail.at_variable path e).0;
  })

  same_file : (s : Service) → IsSameFile f g (path_of g paths s)
  unfolding path_of
  same_file api = same.at_api
  same_file blocker = same.at_blocker
  same_file postfix =
      resolve_mail_log_path-AtLogs (IsSameFile f g) g.size paths.mail_log_file same.at_mail

  tail_reply-same : (s : Service) (n : ℕ) → tail_reply f paths env s n ≡ tail_reply g paths env s n
  unfolding tail_reply
  tail_reply-same s n = rw (path_of-same s, (same_file s).0, (same_file s).1) refl

  count_reply-same : (s : Service) → count_reply f paths env s ≡ count_reply g paths env s
  unfolding count_reply
  count_reply-same s = rw (path_of-same s, (same_file s).0, (same_file s).1) refl

  -- Whatever a client sends, the two replies depend on no file but five: the logs of the API and of
  -- the service, MAIL_LOG_FILE where it is set, and /var/log/maillog and /var/log/mail.log. Where two
  -- file systems have the same sizes and the same texts at these paths, the routes answer the same.
  pub tail_log-confined :
      (name lines : Option Text) (session : Session)
      → (tail_log f paths env name lines session ≡ tail_log g paths env name lines session)
        × (lines_count f paths env name session ≡ lines_count g paths env name session)
  unfolding tail_log lines_count
  tail_log-confined name lines session = elim (Option-cases (log_of name)) [
    | inl e ↦ rw e (refl, refl)
    | inr (s, e) ↦ rw (e, tail_reply-same s (tail_lines lines), count_reply-same s) (refl, refl)
  ]

-- The line feed is the only line boundary in a text.
abbrev pub HasOnlyLf : Text → Type 0
HasOnlyLf = All (λ c. is_break c ≡ eqb c 10)

not_cr : (c : ℕ) → is_break c ≡ eqb c 10 → eqb c 13 ≡ false
unfolding is_break
not_cr c h = ground arith

splitlines-split_lf : (s : Text) → HasOnlyLf s → splitlines s ≡ split_lf s
unfolding splitlines split_lf
splitlines-split_lf [] h = refl
splitlines-split_lf (c ∷ s) h = rw (not_cr c h.0, h.0, splitlines-split_lf s h.1) refl

drop_zero : {A : Type 0} (n : ℕ) (l : List A) → n ≡ 0 → drop n l ≡ l
drop_zero n l e = ap (λ k. drop k l) e

tail_slice-length : (l : List Text) → tail_slice (pos (length l)) l ≡ l
unfolding tail_slice
tail_slice-length [] = refl
tail_slice-length (x ∷ l) = drop_zero (suc (length l) - suc (length l)) (x ∷ l) (omega arith)

tail_lines-show_int : (n : ℕ) → 1 ≤ n → n ≤ 8000 → tail_lines (some (show_int (pos n))) ≡ n
unfolding tail_lines
tail_lines-show_int n low high = rw (parse_int-show_int (pos n)) (omega arith)

tail_file-length :
    (content : Text)
    → HasOnlyLf content
    → 1 ≤ length (split_lf content)
    → length (split_lf content) ≤ 8000
    → tail_file content (pos (tail_lines (some (show_int (pos (length (split_lf content)))))))
      ≡ join lf (split_lf content)
unfolding tail_file
tail_file-length content only low high =
    rw (tail_lines-show_int (length (split_lf content)) low high, splitlines-split_lf content only)
      (ap (join lf) (tail_slice-length (split_lf content)))

module _ (files : Files) (paths : LogPaths) (env : Env) where
  -- For a client that may call the routes, and a name of a log whose file is there and is read as lines
  -- that only line feeds separate, at least one and at most 8000: `lines_count` replies their number, and `tail_log`, asked for that
  -- many, the whole text, without a last line feed.
  pub tail_log-lines_count :
      (name : Option Text) (svc : Service) (content : Text) (session : Session)
      → (is_auth_required env && is_unset session.admin_user) ≡ false
      → log_of name ≡ some svc
      → is_there files (path_of files paths svc) ≡ true
      → files.read (path_of files paths svc) ≡ ok content
      → HasOnlyLf content
      → 1 ≤ length (split_lf content)
      → length (split_lf content) ≤ 8000
      → (lines_count files paths env name session ≡ (
        ok (
            log_reply svc
              (path_of files paths svc)
              (codes "count")
              (num (pos (length (split_lf content))))
              false),
        session,
      ))
        × (tail_log files paths env name (some (show_int (pos (length (split_lf content))))) session
            ≡ (
              ok (
                  log_reply svc
                    (path_of files paths svc)
                    (codes "content")
                    (str (join lf (split_lf content)))
                    false),
              session,
            ))
  unfolding tail_log lines_count tail_reply count_reply
  tail_log-lines_count name svc content session allowed named there reads only low high =
      rw (allowed, named, there, reads)
        (
          refl,
          ap
              (λ t. (
                ok (log_reply svc (path_of files paths svc) (codes "content") (str t) false),
                session,
              ))
              (tail_file-length content only low high),
        )
