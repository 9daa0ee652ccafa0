-- ===== src/Postfix/Control/Tests.antt =====
-- Runs of `reload_postfix`, and its theorems at them.
use postfixblocker.Prelude.{◌≡◌, refl, true, none, some, []}
use postfixblocker.Text.{codes, ◌==◌, contains, lower}
use postfixblocker.Text.Decimal.{pos}
use postfixblocker.Exec.{Outcome, ok}
use postfixblocker.Postfix.Control.{
  Command, Completed, finished, not_ready, is_allowed, run_fixed, status_rc, reload_if, warning_for,
  reload_postfix, has_postfix_pcre,
}

-- Every command succeeds.
abbrev healthy : Command → Outcome Completed
healthy cmd = ok (record { returncode = pos 0; stdout = codes "btree PCRE" })

-- `postmap` fails and Postfix is down.
abbrev down : Command → Outcome Completed
down cmd = ok (record { returncode = pos 1; stdout = [] })

reload_down :
    (reload_postfix down none (some (0, 0)) []).0 ≡ ok (finished (pos 1) (pos 1) none not_ready)
unfolding reload_postfix run_fixed status_rc reload_if warning_for is_allowed ◌==◌
reload_down = refl

pcre_found : (has_postfix_pcre healthy []).0 ≡ ok true
unfolding has_postfix_pcre run_fixed is_allowed ◌==◌ contains lower
pcre_found = refl
