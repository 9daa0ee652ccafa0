-- ===== src/Badge/Colors.antt =====
-- What the badge says.
use postfixblocker.Prelude.{ℕ, ◌≤◌, ◌≡◌, true, false, Option, none, some, List, [], ◌∷◌, arith}
use postfixblocker.Text.{Text}
use postfixblocker.Text.Decimal.{pos}
use postfixblocker.Exec.{Exn, Outcome, ok, raised}
use postfixblocker.Badge.{
  Color, brightgreen, green, yellowgreen, yellow, orange, red, color_for, Tools, badge, Written,
  percent_of,
}

-- How good a color is.
abbrev pub rank : Color → ℕ
rank brightgreen = 5
rank green = 4
rank yellowgreen = 3
rank yellow = 2
rank orange = 1
rank red = 0

-- More coverage never gives a worse color.
pub color_for-monotone : (m n : ℕ) → m ≤ n → rank (color_for (pos m)) ≤ rank (color_for (pos n))
unfolding color_for
color_for-monotone m n h = ground (arith, h)

module _ (tools : Tools) where
  -- Why the script ends with 1: not two arguments, no file to read, or one that does not parse.
  pub data IsRefused : List Text → Type 0 where
    no_arguments : IsRefused []
    one_argument : (src : Text) → IsRefused (src ∷ [])
    more_arguments :
        (src dest more : Text) (rest : List Text) → IsRefused (src ∷ dest ∷ more ∷ rest)
    no_file : (src dest : Text) → tools.is_file src ≡ false → IsRefused (src ∷ dest ∷ [])
    no_xml :
        (src dest : Text) (e : Exn)
        → tools.is_file src ≡ true
        → tools.root_attributes src ≡ raised e
        → IsRefused (src ∷ dest ∷ [])

  -- How making the directory and writing the file end: the exception that the script raises.
  abbrev pub first_exn : Outcome (Unit {0}) → Outcome (Unit {0}) → Option Exn
  first_exn (raised e) write = some e
  first_exn (ok made) (raised e) = some e
  first_exn (ok made) (ok written) = none

  -- A badge that is asked for, of a file that is there and parses.
  pub record IsAsked (args : List Text) (src dest : Text) (attributes : List (Text × Text))
      : Type 0 where
    pub arguments : args ≡ src ∷ dest ∷ []
    pub is_there : tools.is_file src ≡ true
    pub parses : tools.root_attributes src ≡ ok attributes

  -- What a run of the script is.
  pub data Ran (args : List Text) (w : Written) : Outcome ℕ × Written → Type 0 where
    wrote :
        {src dest : Text} {attributes : List (Text × Text)} {x : Outcome ℕ × Written}
        → IsAsked args src dest attributes
        → first_exn (tools.mkdir dest) (tools.write_text dest) ≡ none
        → x ≡ (ok 0, (dest, tools.dumps (badge (percent_of tools attributes))) ∷ w)
        → Ran args w x
    broke :
        {src dest : Text} {attributes : List (Text × Text)} {e : Exn} {x : Outcome ℕ × Written}
        → IsAsked args src dest attributes
        → first_exn (tools.mkdir dest) (tools.write_text dest) ≡ some e
        → x ≡ (raised e, w)
        → Ran args w x
    refused : {x : Outcome ℕ × Written} → IsRefused args → x ≡ (ok 1, w) → Ran args w x
