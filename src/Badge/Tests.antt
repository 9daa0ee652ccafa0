-- ===== src/Badge/Tests.antt =====
-- A coverage file of 85.3 percent, and its badge.
use postfixblocker.Prelude.{◌≡◌, refl, List, [], ◌∷◌, if◌then◌else◌}
use postfixblocker.Text.{Text, codes, ◌==◌}
use postfixblocker.Text.Decimal.{pos, negsuc}
use postfixblocker.Exec.{Exn, other, ok, raised}
use postfixblocker.Db.Table.{lookup}
use postfixblocker.Badge.{color_for, green, red, Tools, percent_of, write_badge, main}

green_85 : color_for (pos 85) ≡ green
unfolding color_for
green_85 = refl

red_below : color_for (negsuc 3) ≡ red
unfolding color_for
red_below = refl

abbrev bad_number : Exn
bad_number = record { kind = other; message = codes "could not convert" }

abbrev tools : Tools
tools = record {
  is_file = λ path. path == codes "coverage.xml";
  root_attributes = λ path. ok ((codes "line_rate", codes "0.853") ∷ []);
  to_percent = λ rate. if rate == codes "0.853" then ok (pos 85) else raised bad_number;
  dumps = λ v. codes "{}";
  mkdir = λ dest. ok tt;
  write_text = λ dest. ok tt;
}

abbrev args : List Text
args = codes "coverage.xml" ∷ codes "badge.json" ∷ []

writes_badge : main tools args [] ≡ (ok 0, (codes "badge.json", codes "{}") ∷ [])
unfolding main percent_of write_badge lookup ◌==◌
writes_badge = refl
