-- ===== src/Postfix/LogLevel/Apply.antt =====
-- main.cf as a file: what `apply_postfix_log_level` leaves in it.
use postfixblocker.Prelude.{
  ℕ, ◌≡◌, refl, ap, ◌∙◌, sym, subst, true, Option, none, some, List, [], ◌∷◌, ◌++◌, arith, All,
  All-append,
}
use postfixblocker.Text.{Text, codes, join, splitlines, is_space, is_break}
use postfixblocker.Text.Strip.{HasNoSpace}
use postfixblocker.Text.Lines.{
  lf, join-terminate, NoBreak, splitlines-terminate, splitlines-NoBreak,
}
use postfixblocker.Text.Decimal.{pos, show_nat}
use postfixblocker.Text.Decimal.RoundTrip.{show_int-pos, show_int-HasNoSpace}
use postfixblocker.Postfix.Maps.{written}
use postfixblocker.Postfix.LogLevel.{
  map_ui_to_debug_peer_level, derive_tls_loglevel, rewrite_main_cf_lines, read_main_cf,
  apply_postfix_log_level,
}
use postfixblocker.Postfix.LogLevel.MainCf.{
  Key, peer_level, peer_list, smtp_tls, smtpd_tls, line_of, IsConfigured,
  rewrite_main_cf_lines-IsConfigured,
}
use postfixblocker.Postfix.LogLevel.MainCf.Whole.{
  rewrite_main_cf_lines_idem, rewrite_main_cf_lines-All, rewrite_main_cf_lines-cons,
}

HasNoSpace-NoBreak : (s : Text) → HasNoSpace s → NoBreak s
unfolding is_space is_break
HasNoSpace-NoBreak [] h = tt
HasNoSpace-NoBreak (c ∷ s) h = (ground arith, HasNoSpace-NoBreak s h.1)

show_nat-NoBreak : (n : ℕ) → NoBreak (show_nat n)
show_nat-NoBreak n = HasNoSpace-NoBreak _ (rw show_int-pos at (show_int-HasNoSpace (pos n)))

line_of-NoBreak : (lvl tls_lvl : ℕ) (k : Key) → NoBreak (line_of lvl tls_lvl k)
line_of-NoBreak lvl tls_lvl peer_level =
    All-append _ (codes "debug_peer_level = ") _ (unfold is_break in ground arith)
      (show_nat-NoBreak lvl)
line_of-NoBreak lvl tls_lvl peer_list = unfold is_break in ground arith
line_of-NoBreak lvl tls_lvl smtp_tls =
    All-append _ (codes "smtp_tls_loglevel = ") _ (unfold is_break in ground arith)
      (show_nat-NoBreak tls_lvl)
line_of-NoBreak lvl tls_lvl smtpd_tls =
    All-append _ (codes "smtpd_tls_loglevel = ") _ (unfold is_break in ground arith)
      (show_nat-NoBreak tls_lvl)

read_main_cf-NoBreak : (cf : Option Text) → All NoBreak (read_main_cf true cf)
unfolding read_main_cf
read_main_cf-NoBreak none = tt
read_main_cf-NoBreak (some t) = splitlines-NoBreak t

-- What is written reads back as the lines that were computed.
splitlines-rewritten :
    (lines : List Text) (lvl tls_lvl : ℕ)
    → All NoBreak lines
    → splitlines (join lf (rewrite_main_cf_lines lines lvl tls_lvl) ++ lf)
      ≡ rewrite_main_cf_lines lines lvl tls_lvl
splitlines-rewritten lines lvl tls_lvl plain =
    let (l, rest, e) = rewrite_main_cf_lines-cons lvl tls_lvl lines in
    ap (λ ls. splitlines (join lf ls ++ lf)) e
    ∙ ap splitlines (join-terminate l rest)
    ∙ splitlines-terminate (l ∷ rest) (
        subst (All NoBreak) e
          (rewrite_main_cf_lines-All lvl tls_lvl NoBreak lines plain (line_of-NoBreak lvl tls_lvl)))
    ∙ sym e

-- The file that a level gives, where it can be read and written.
abbrev pub applied : Text → Option Text → Text
applied level_s cf =
    join lf (
      rewrite_main_cf_lines (read_main_cf true cf) (map_ui_to_debug_peer_level level_s)
        (derive_tls_loglevel level_s))
    ++ lf

apply_postfix_log_level_lem :
    (level_s : Text) (cf : Option Text)
    → apply_postfix_log_level true written level_s cf ≡ (some (applied level_s cf), true)
unfolding apply_postfix_log_level
apply_postfix_log_level_lem level_s cf = refl

splitlines-applied :
    (level_s : Text) (cf : Option Text)
    → splitlines (applied level_s cf)
      ≡ rewrite_main_cf_lines
          (read_main_cf true cf)
          (map_ui_to_debug_peer_level level_s)
          (derive_tls_loglevel level_s)
splitlines-applied level_s cf = splitlines-rewritten _ _ _ (read_main_cf-NoBreak cf)

-- Where main.cf can be read (or is missing) and written, it holds afterwards, line by line, the two
-- levels that the text maps to: each key is set, every line that sets one sets it so, and the other
-- lines are those of the old file.
pub apply_postfix_log_level-IsConfigured :
    (level_s : Text) (cf : Option Text)
    → (t : Text) × (apply_postfix_log_level true written level_s cf ≡ (some t, true))
      × IsConfigured
          (map_ui_to_debug_peer_level level_s)
          (derive_tls_loglevel level_s)
          (read_main_cf true cf)
          (splitlines t)
apply_postfix_log_level-IsConfigured level_s cf = (
  applied level_s cf,
  apply_postfix_log_level_lem level_s cf,
  rw (splitlines-applied level_s cf)
      (rewrite_main_cf_lines-IsConfigured _ _ (read_main_cf true cf)),
)

read_main_cf_lem : (t : Text) → read_main_cf true (some t) ≡ splitlines t
unfolding read_main_cf
read_main_cf_lem t = refl

applied_idem :
    (level_s : Text) (cf : Option Text)
    → applied level_s (some (applied level_s cf)) ≡ applied level_s cf
applied_idem level_s cf =
    rw (read_main_cf_lem, splitlines-applied level_s cf)
      (ap (λ ls. join lf ls ++ lf) (rewrite_main_cf_lines_idem _ _ (read_main_cf true cf)))

-- Applying a level a second time leaves main.cf as it is, character by character.
pub apply_postfix_log_level_idem :
    (level_s : Text) (cf : Option Text)
    → apply_postfix_log_level true written level_s
        (apply_postfix_log_level true written level_s cf).0
      ≡ apply_postfix_log_level true written level_s cf
apply_postfix_log_level_idem level_s cf =
    ap (λ r. apply_postfix_log_level true written level_s r.0)
      (apply_postfix_log_level_lem level_s cf)
    ∙ apply_postfix_log_level_lem level_s (some (applied level_s cf))
    ∙ ap (λ t. (some t, true)) (applied_idem level_s cf)
    ∙ sym (apply_postfix_log_level_lem level_s cf)
