-- ===== src/Postfix/LogLevel/Tests.antt =====
-- Runs of the level maps and of the rewrite of main.cf, and the theorems at some of them.
use postfixblocker.Prelude.{if◌then◌else◌, ◌≡◌, refl, true, Option, none, some, List, [], ◌∷◌, ◌++◌}
use postfixblocker.Text.{Text, codes, ◌==◌, strip, upper, is_space, starts_with, splitlines}
use postfixblocker.Text.Lines.{lf}
use postfixblocker.Text.Decimal.{parse_int, show_nat}
use postfixblocker.Postfix.Maps.{written}
use postfixblocker.Postfix.LogLevel.{
  map_ui_to_debug_peer_level, derive_tls_loglevel, rewrite_line, rewrite_loop, append_missing,
  rewrite_main_cf_lines, read_main_cf, apply_postfix_log_level, resolve_mail_log_path, mail_log,
}
use postfixblocker.Postfix.LogLevel.MainCf.{IsConfigured}
use postfixblocker.Postfix.LogLevel.Levels.{map_ui_to_debug_peer_level_bounds}
use postfixblocker.Postfix.LogLevel.Apply.{apply_postfix_log_level-IsConfigured}

levels :
    (map_ui_to_debug_peer_level (codes " debug ") ≡ 10)
    × (map_ui_to_debug_peer_level (codes "9") ≡ 4)
    × (map_ui_to_debug_peer_level (codes "-3") ≡ 1)
    × (map_ui_to_debug_peer_level (codes "info") ≡ 2)
    × (derive_tls_loglevel (codes "3") ≡ 1)
unfolding map_ui_to_debug_peer_level derive_tls_loglevel parse_int ◌==◌ strip upper is_space
levels = (refl, refl, refl, refl, refl)

abbrev old_lines : List Text
old_lines = codes "a = b" ∷ codes "  debug_peer_level=2" ∷ codes "smtpd_tls_loglevel = 3" ∷ []

rewritten :
    rewrite_main_cf_lines old_lines 4 1
    ≡ codes "a = b"
      ∷ codes "debug_peer_level = 4"
      ∷ codes "smtpd_tls_loglevel = 1"
      ∷ codes "debug_peer_list = 0.0.0.0/0"
      ∷ codes "smtp_tls_loglevel = 1"
      ∷ []
unfolding rewrite_main_cf_lines rewrite_loop rewrite_line append_missing strip is_space starts_with
    show_nat
rewritten = refl

fallback_log :
    resolve_mail_log_path (λ p. if p == mail_log then some 3 else none) (some (codes "/x"))
    ≡ mail_log
unfolding resolve_mail_log_path ◌==◌
fallback_log = refl

map_ui_to_debug_peer_level_bounds_example : map_ui_to_debug_peer_level (codes "debug ") ≡ 10
unfolding ◌==◌ upper strip is_space
map_ui_to_debug_peer_level_bounds_example = map_ui_to_debug_peer_level_bounds (codes "debug ")

abbrev old_file : Option Text
old_file = some (codes "a = b" ++ lf ++ codes "debug_peer_level=2")

apply_postfix_log_level-IsConfigured_example :
    (t : Text) × (apply_postfix_log_level true written (codes "INFO") old_file ≡ (some t, true))
    × IsConfigured
        (map_ui_to_debug_peer_level (codes "INFO"))
        (derive_tls_loglevel (codes "INFO"))
        (read_main_cf true old_file)
        (splitlines t)
apply_postfix_log_level-IsConfigured_example =
    apply_postfix_log_level-IsConfigured (codes "INFO") old_file
