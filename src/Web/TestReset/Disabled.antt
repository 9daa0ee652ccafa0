-- ===== src/Web/TestReset/Disabled.antt =====
-- The test routes where TEST_RESET_ENABLE is not 1.
use postfixblocker.Prelude.{◌≡◌, refl, false, Option, Bool}
use postfixblocker.Text.{Text, codes}
use postfixblocker.Exec.{Exn, raised, Exec}
use postfixblocker.Web.Json.{Json}
use postfixblocker.Web.Http.{Response, abort}
use postfixblocker.Web.TestReset.{Tables, is_enabled, when_enabled, reset_state, dump_state}

abbrev pub forbidden : Exn
forbidden = abort 403 (codes "Forbidden")

when_enabled-forbidden :
    {S : Type 0} (enable : Option Text) (ready : Option Bool) (fn : Exec S Response) (s : S)
    → is_enabled enable ≡ false
    → when_enabled enable ready fn s ≡ (raised forbidden, s)
unfolding when_enabled
when_enabled-forbidden enable ready fn s h = rw h refl

module _ (t : Tables) (enable : Option Text) (ready : Option Bool) (s : t.Db)
    (disabled : is_enabled enable ≡ false) where
  pub reset_state-forbidden :
      (repr : Json → Text) (body : Option Json)
      → reset_state t repr enable ready body s ≡ (raised forbidden, s)
  unfolding reset_state
  reset_state-forbidden repr body = when_enabled-forbidden enable ready _ s disabled

  pub dump_state-forbidden : dump_state t enable ready s ≡ (raised forbidden, s)
  unfolding dump_state
  dump_state-forbidden = when_enabled-forbidden enable ready _ s disabled
