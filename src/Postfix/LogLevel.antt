-- ===== src/Postfix/LogLevel.antt =====
-- postfix_blocker/postfix/log_level.py. The file main.cf is its content, where it exists; `readable`
-- and `WriteOutcome` are the operating system's part.
pub mod MainCf
pub mod Levels
pub mod MailLog
pub mod Apply
mod Tests
use postfixblocker.Prelude.{
  ℕ, ◌≤◌, Bool, true, false, ◌&&◌, Option, none, some, List, [], ◌∷◌, ◌++◌, min, max, ltb, leb,
  if◌then◌else◌, take,
}
use postfixblocker.Text.{Text, codes, ◌==◌, is_empty, strip, upper, starts_with, join, splitlines}
use postfixblocker.Text.Lines.{lf}
use postfixblocker.Text.Decimal.{ℤ, pos, negsuc, parse_int, show_nat}
use postfixblocker.Postfix.Maps.{WriteOutcome, refused, cut, written}

abbrev pub info_num : ℕ
info_num = 2

abbrev pub debug_num : ℕ
debug_num = 10

-- `max(1, min(n, 4))`.
abbrev pub clamp_level : ℤ → ℕ
clamp_level (pos n) = max 1 (min n 4)
clamp_level (negsuc n) = 1

pub named_level : Text → ℕ
named_level s = if s == codes "DEBUG" then debug_num else if s == codes "INFO" then info_num else 1

abbrev pub or_named : Option ℤ → Text → ℕ
or_named (some n) s = clamp_level n
or_named none s = named_level s

pub map_ui_to_debug_peer_level : Text → ℕ
unfolding named_level
map_ui_to_debug_peer_level level_s = let s = upper (strip level_s) in or_named (parse_int s) s

abbrev tls_of : Option ℤ → ℕ
tls_of none = 0
tls_of (some (pos n)) = if leb 4 n then 4 else if leb 3 n then 1 else 0
tls_of (some (negsuc n)) = 0

pub derive_tls_loglevel : Text → ℕ
derive_tls_loglevel level_s =
    let s = upper (strip level_s) in
    if s == codes "DEBUG" then 4 else if s == codes "INFO" then 1 else tls_of (parse_int s)

-- The lines that the module writes.
abbrev pub peer_level_line : ℕ → Text
peer_level_line lvl = codes "debug_peer_level = " ++ show_nat lvl

abbrev pub peer_list_line : Text
peer_list_line = codes "debug_peer_list = 0.0.0.0/0"

abbrev pub smtp_tls_line : ℕ → Text
smtp_tls_line tls_lvl = codes "smtp_tls_loglevel = " ++ show_nat tls_lvl

abbrev pub smtpd_tls_line : ℕ → Text
smtpd_tls_line tls_lvl = codes "smtpd_tls_loglevel = " ++ show_nat tls_lvl

-- The loop's variables.
pub record Rewrite : Type 0 where
  pub out : List Text
  pub found_lvl : Bool
  pub found_list : Bool
  pub found_smtp_tls : Bool
  pub found_smtpd_tls : Bool

-- One round of the loop.
pub rewrite_line : ℕ → ℕ → Rewrite → Text → Rewrite
rewrite_line lvl tls_lvl r line =
    let sline = strip line in
    if starts_with (codes "debug_peer_level") sline
    then record r { out = r.out ++ peer_level_line lvl ∷ []; found_lvl = true }
    else if starts_with (codes "debug_peer_list") sline
    then record r { out = r.out ++ peer_list_line ∷ []; found_list = true }
    else if starts_with (codes "smtp_tls_loglevel") sline
    then record r { out = r.out ++ smtp_tls_line tls_lvl ∷ []; found_smtp_tls = true }
    else if starts_with (codes "smtpd_tls_loglevel") sline
    then record r { out = r.out ++ smtpd_tls_line tls_lvl ∷ []; found_smtpd_tls = true }
    else record r { out = r.out ++ line ∷ [] }

pub rewrite_loop : ℕ → ℕ → Rewrite → List Text → Rewrite
rewrite_loop lvl tls_lvl r [] = r
rewrite_loop lvl tls_lvl r (line ∷ lines) =
    rewrite_loop lvl tls_lvl (rewrite_line lvl tls_lvl r line) lines

-- `if not found: out.append(line)`.
abbrev pub unless_found : Bool → Text → List Text → List Text
unless_found true line out = out
unless_found false line out = out ++ line ∷ []

abbrev pub start : Rewrite
start = record {
  out = [];
  found_lvl = false;
  found_list = false;
  found_smtp_tls = false;
  found_smtpd_tls = false;
}

pub append_missing : ℕ → ℕ → Rewrite → List Text
append_missing lvl tls_lvl r = unless_found r.found_smtpd_tls (smtpd_tls_line tls_lvl) (
    unless_found r.found_smtp_tls (smtp_tls_line tls_lvl) (
      unless_found r.found_list peer_list_line
        (unless_found r.found_lvl (peer_level_line lvl) r.out)))

pub rewrite_main_cf_lines : List Text → ℕ → ℕ → List Text
rewrite_main_cf_lines lines lvl tls_lvl =
    append_missing lvl tls_lvl (rewrite_loop lvl tls_lvl start lines)

-- The lines that are read: none if the file is missing or cannot be read.
pub read_main_cf : Bool → Option Text → List Text
read_main_cf readable none = []
read_main_cf true (some content) = splitlines content
read_main_cf false (some content) = []

-- The file after the write, and whether the code goes on to the reload of Postfix.
abbrev written_main_cf : WriteOutcome → Text → Option Text → Option Text × Bool
written_main_cf refused content old = (old, false)
written_main_cf (cut n) content old = (some (take n content), false)
written_main_cf written content old = (some content, true)

pub apply_postfix_log_level : Bool → WriteOutcome → Text → Option Text → Option Text × Bool
apply_postfix_log_level readable outcome level_s main_cf =
    let lvl = map_ui_to_debug_peer_level level_s in
    let tls_lvl = derive_tls_loglevel level_s in
    let out = rewrite_main_cf_lines (read_main_cf readable main_cf) lvl tls_lvl in
    written_main_cf outcome (join lf out ++ lf) main_cf

-- A path of the file system: `none` if nothing is there, else the size in bytes.
abbrev pub FileSizes : Type 0
FileSizes = Text → Option ℕ

abbrev pub maillog : Text
maillog = codes "/var/log/maillog"

abbrev pub mail_log : Text
mail_log = codes "/var/log/mail.log"

abbrev pub has_content : Option ℕ → Bool
has_content none = false
has_content (some size) = ltb 0 size

abbrev pub default_log : FileSizes → Text
default_log sizes =
    if has_content (sizes maillog)
    then maillog
    else if has_content (sizes mail_log)
    then mail_log
    else maillog

abbrev pub exists_at : Option ℕ → Bool
exists_at none = false
exists_at (some size) = true

-- The argument is the variable MAIL_LOG_FILE; an empty value counts as unset.
pub resolve_mail_log_path : FileSizes → Option Text → Text
resolve_mail_log_path sizes none = default_log sizes
resolve_mail_log_path sizes (some path) =
    if is_empty path
    then default_log sizes
    else if exists_at (sizes path)
    then path
    else default_log sizes
