-- ===== src/Badge.antt =====
-- scripts/gen_coverage_badge.py. The XML parser, `float` with `round`, and the text of a JSON value are
-- parameters.
pub mod Colors
mod Tests
use postfixblocker.Prelude.{
  ℕ, ◌≡◌, Bool, true, false, not, Option, none, some, List, [], ◌∷◌, ◌++◌, leb, eqb, length,
  if◌then◌else◌,
}
use postfixblocker.Text.{Text, codes, is_empty}
use postfixblocker.Text.Decimal.{ℤ, pos, negsuc, show_int}
use postfixblocker.Exec.{Outcome, ok, raised, Exec, continue, ◌>>=◌, ◌>>◌, pure}
use postfixblocker.Db.Table.{lookup}
use postfixblocker.Web.Json.{Json, num, str, obj, field, end}

-- The colors of the badge, the best one first.
pub data Color : Type 0 where
  brightgreen green yellowgreen yellow orange red : Color

abbrev pub color_name : Color → Text
color_name brightgreen = codes "brightgreen"
color_name green = codes "green"
color_name yellowgreen = codes "yellowgreen"
color_name yellow = codes "yellow"
color_name orange = codes "orange"
color_name red = codes "red"

abbrev pub is_at_least : ℕ → ℤ → Bool
is_at_least m (pos n) = leb m n
is_at_least m (negsuc n) = false

-- `_color_for`.
pub color_for : ℤ → Color
color_for percent =
    if is_at_least 90 percent
    then brightgreen
    else if is_at_least 80 percent
    then green
    else if is_at_least 70 percent
    then yellowgreen
    else if is_at_least 60 percent
    then yellow
    else if is_at_least 50 percent
    then orange
    else red

-- What the script calls: whether there is a file, the attributes of the root of its XML,
-- `int(round(float(rate) * 100))`, the text of a JSON value, and how `mkdir` and `write_text` end.
pub record Tools : Type 0 where
  pub is_file : Text → Bool
  pub root_attributes : Text → Outcome (List (Text × Text))
  pub to_percent : Text → Outcome ℤ
  pub dumps : Json → Text
  pub mkdir : Text → Outcome (Unit {0})
  pub write_text : Text → Outcome (Unit {0})

abbrev or_attribute : Option Text → Option Text → Option Text
or_attribute none b = b
or_attribute (some []) b = b
or_attribute (some (c ∷ s)) b = some (c ∷ s)

-- `root.attrib.get('line-rate') or root.attrib.get('line_rate')`.
abbrev rate_of : List (Text × Text) → Option Text
rate_of attributes =
    or_attribute (lookup attributes (codes "line-rate")) (lookup attributes (codes "line_rate"))

abbrev or_zero : Outcome ℤ → ℤ
or_zero (ok n) = n
or_zero (raised e) = pos 0

-- The dict, with its keys sorted.
abbrev pub badge : ℤ → Json
badge percent = obj (
    field (codes "color") (str (color_name (color_for percent))) (
      field (codes "label") (str (codes "coverage")) (
        field (codes "message") (str (show_int percent ++ codes "%"))
          (field (codes "schemaVersion") (num (pos 1)) end))))

-- The files written, with their texts.
abbrev pub Written : Type 0
Written = List (Text × Text)

module _ (tools : Tools) where
  abbrev percent_for : Option Text → ℤ
  percent_for none = pos 0
  percent_for (some rate) = or_zero (tools.to_percent rate)

  pub percent_of : List (Text × Text) → ℤ
  percent_of attributes = percent_for (rate_of attributes)

  abbrev make_parent : Outcome (Unit {0}) → Exec Written (Unit {0})
  make_parent r w = (r, w)

  abbrev write_file : Outcome (Unit {0}) → Text → Text → Exec Written (Unit {0})
  write_file (ok _) dest text w = (ok tt, (dest, text) ∷ w)
  write_file (raised e) dest text w = (raised e, w)

  pub write_badge : ℤ → Text → Exec Written ℕ
  write_badge percent dest = do
    make_parent (tools.mkdir dest)
    write_file (tools.write_text dest) dest (tools.dumps (badge percent))
    pure 0

  abbrev pub with_root : Outcome (List (Text × Text)) → Text → Exec Written ℕ
  with_root (raised e) dest = pure 1
  with_root (ok attributes) dest = write_badge (percent_of attributes) dest

  -- `main`, on the arguments behind the name of the script.
  pub main : List Text → Exec Written ℕ
  main (src ∷ dest ∷ []) =
      if tools.is_file src then with_root (tools.root_attributes src) dest else pure 1
  main _ = pure 1
