-- ===== src/Postfix/Maps.antt =====
-- postfix_blocker/postfix/maps.py, with the entries of postfix_blocker/models/entries.py.
-- A write to one of the four files ends as the operating system decides: `outcome` is that oracle.
pub mod Laws
mod Tests
use postfixblocker.Prelude.{
  ℕ, ◌≡◌, refl, Bool, true, false, Option, none, some, List, [], ◌∷◌, ◌++◌, take, if◌then◌else◌,
  or_else,
}
use postfixblocker.Text.{Text, codes, is_empty, join}
use postfixblocker.Text.Lines.{lf}

pub record BlockEntry : Type 0 where
  pub pattern : Text
  pub is_regex : Bool
  pub test_mode : Bool

abbrev pub reject_suffix : Text
reject_suffix = 9 ∷ codes "REJECT"

abbrev pub line_lit : BlockEntry → Text
line_lit e = e.pattern ++ reject_suffix

abbrev pub line_re : BlockEntry → Text
line_re e = codes "/" ++ (e.pattern ++ codes "/ REJECT")

-- The four lists of lines that the loop fills.
pub record MapLines : Type 0 where
  pub literal : List Text
  pub regex : List Text
  pub test_literal : List Text
  pub test_regex : List Text

abbrev pub no_lines : MapLines
no_lines = record { literal = []; regex = []; test_literal = []; test_regex = [] }

-- One round of the loop over the entries.
pub add_entry : MapLines → BlockEntry → MapLines
add_entry m e =
    if e.test_mode
    then if e.is_regex
      then record m { test_regex = m.test_regex ++ line_re e ∷ [] }
      else record m { test_literal = m.test_literal ++ line_lit e ∷ [] }
    else if e.is_regex
    then record m { regex = m.regex ++ line_re e ∷ [] }
    else record m { literal = m.literal ++ line_lit e ∷ [] }

pub gather : MapLines → List BlockEntry → MapLines
gather m [] = m
gather m (e ∷ es) = gather (add_entry m e) es

-- The text written for a list of lines.
abbrev final_lf : List Text → Text
final_lf [] = []
final_lf (l ∷ ls) = lf

unfoldable pub render : List Text → Text
unfolding join
render ls = join lf ls ++ final_lf ls

-- The directory that holds the maps: the argument, the environment, the default.
unfoldable pub map_dir : Option Text → Option Text → Text
map_dir (some (c ∷ s)) env = c ∷ s
map_dir (some []) env = or_else env (codes "/etc/postfix")
map_dir none env = or_else env (codes "/etc/postfix")

-- The four files under that directory, by their contents.
pub record MapFiles : Type 0 where
  pub literal : Text
  pub regex : Text
  pub test_literal : Text
  pub test_regex : Text

pub data MapName : Type 0 where
  literal regex test_literal test_regex : MapName

abbrev pub file_name : MapName → Text
file_name literal = codes "blocked_recipients"
file_name regex = codes "blocked_recipients.pcre"
file_name test_literal = codes "blocked_recipients_test"
file_name test_regex = codes "blocked_recipients_test.pcre"

abbrev pub content_of : MapFiles → MapName → Text
content_of f literal = f.literal
content_of f regex = f.regex
content_of f test_literal = f.test_literal
content_of f test_regex = f.test_regex

abbrev set_content : MapFiles → MapName → Text → MapFiles
set_content f literal t = record f { literal = t }
set_content f regex t = record f { regex = t }
set_content f test_literal t = record f { test_literal = t }
set_content f test_regex t = record f { test_regex = t }

-- How `open('w')` and the write end: not opened, cut short after some characters, or complete.
pub data WriteOutcome : Type 0 where
  refused : WriteOutcome
  cut : ℕ → WriteOutcome
  written : WriteOutcome

-- The files afterwards, and whether no exception was raised.
abbrev write_one : WriteOutcome → MapName → Text → MapFiles → MapFiles × Bool
write_one refused name t f = (f, false)
write_one (cut n) name t f = (set_content f name (take n t), false)
write_one written name t f = (set_content f name t, true)

abbrev then_write : MapFiles × Bool → (MapFiles → MapFiles × Bool) → MapFiles × Bool
then_write (f, false) k = (f, false)
then_write (f, true) k = k f

pub write_lines : (MapName → WriteOutcome) → MapLines → MapFiles → MapFiles × Bool
write_lines outcome m f = then_write (write_one (outcome literal) literal (render m.literal) f) λ f.
    then_write (write_one (outcome regex) regex (render m.regex) f) λ f.
      then_write (write_one (outcome test_literal) test_literal (render m.test_literal) f)
        λ f. write_one (outcome test_regex) test_regex (render m.test_regex) f

-- `false` beside the files is the exception that reaches the caller.
pub write_map_files : (MapName → WriteOutcome) → List BlockEntry → MapFiles → MapFiles × Bool
write_map_files outcome entries f = write_lines outcome (gather no_lines entries) f
