-- ===== src/Postfix/LogLevel/MailLog.antt =====
-- Where the mail log is looked for.
use postfixblocker.Prelude.{◌≡◌, refl, Option, none, some, [], ◌∷◌, Bool-cases, inl, inr}
use postfixblocker.Text.{Text}
use postfixblocker.Postfix.LogLevel.{
  FileSizes, maillog, mail_log, has_content, default_log, exists_at, resolve_mail_log_path,
}

-- A property of the paths of the two logs and of MAIL_LOG_FILE.
pub record AtLogs (P : Text → Type 0) (variable : Option Text) : Type 0 where
  pub at_maillog : P maillog
  pub at_mail_log : P mail_log
  pub at_variable : (path : Text) → variable ≡ some path → P path

default_log-AtLogs :
    (P : Text → Type 0) (sizes : FileSizes) → P maillog → P mail_log → P (default_log sizes)
default_log-AtLogs P sizes p q = elim (Bool-cases (has_content (sizes maillog))) [
  | inl e ↦ rw e p
  | inr e ↦ elim (Bool-cases (has_content (sizes mail_log))) [
    | inl f ↦ rw (e, f) q
    | inr f ↦ rw (e, f) p
  ]
]

-- The path is one of the three.
pub resolve_mail_log_path-AtLogs :
    (P : Text → Type 0) (sizes : FileSizes) (variable : Option Text)
    → AtLogs P variable
    → P (resolve_mail_log_path sizes variable)
unfolding resolve_mail_log_path
resolve_mail_log_path-AtLogs P sizes none h = default_log-AtLogs P sizes h.at_maillog h.at_mail_log
resolve_mail_log_path-AtLogs P sizes (some []) h =
    default_log-AtLogs P sizes h.at_maillog h.at_mail_log
resolve_mail_log_path-AtLogs P sizes (some (c ∷ path)) h =
    elim (Bool-cases (exists_at (sizes (c ∷ path)))) [
      | inl e ↦ rw e (h.at_variable (c ∷ path) refl)
      | inr e ↦ rw e (default_log-AtLogs P sizes h.at_maillog h.at_mail_log)
    ]

-- It depends on the sizes at the three paths alone.
pub resolve_mail_log_path-same :
    (f g : FileSizes) (variable : Option Text)
    → AtLogs (λ path. f path ≡ g path) variable
    → resolve_mail_log_path f variable ≡ resolve_mail_log_path g variable
unfolding resolve_mail_log_path
resolve_mail_log_path-same f g none h = rw (h.at_maillog, h.at_mail_log) refl
resolve_mail_log_path-same f g (some []) h = rw (h.at_maillog, h.at_mail_log) refl
resolve_mail_log_path-same f g (some (c ∷ path)) h =
    rw (h.at_maillog, h.at_mail_log, h.at_variable (c ∷ path) refl) refl
