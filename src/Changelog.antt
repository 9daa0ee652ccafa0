-- ===== src/Changelog.antt =====
-- scripts/generate_changelog.py. What git prints is a parameter. Tag names have ASCII digits, and
-- neither a tag name nor a subject line holds a line feed, since both come from `splitlines`.
pub mod Categories
pub mod Releases
pub mod Render
mod Tests
use postfixblocker.Prelude.{
  ℕ, zero, suc, ◌+◌, ◌-◌, ◌*◌, ◌≡◌, Bool, true, false, not, ◌&&◌, ◌||◌, Option, none, some, List,
  [], ◌∷◌, ◌++◌, eqb, leb, ltb, drop, length, if◌then◌else◌, or_else,
}
use postfixblocker.Text.{Text, codes, ◌==◌, is_empty, strip, lower, starts_with, splitlines, join}
use postfixblocker.Text.Decimal.{is_digit}
use postfixblocker.Text.Lines.{lf}
use postfixblocker.Exec.{Outcome, ok, raised}

pub record SemVer : Type 0 where
  pub major : ℕ
  pub minor : ℕ
  pub patch : ℕ

-- `(\d+)` at the front of a text: the number, and the rest.
abbrev more_digits : ℕ → Text → ℕ × Text
more_digits n [] = (n, [])
more_digits n (c ∷ s) =
    let rest = more_digits (n * 10 + (c - 48)) s in if is_digit c then rest else (n, c ∷ s)

abbrev number : Text → Option (ℕ × Text)
number [] = none
number (c ∷ s) = if is_digit c then some (more_digits 0 (c ∷ s)) else none

-- `\.(\d+)`.
abbrev dot_number : Text → Option (ℕ × Text)
dot_number [] = none
dot_number (c ∷ s) = if eqb c 46 then number s else none

abbrev and_then : {A B : Type 0} → (A → Option B) → Option A → Option B
and_then f none = none
and_then f (some a) = f a

abbrev at_end : ℕ → ℕ → ℕ × Text → Option SemVer
at_end major minor (patch, []) = some (record { major = major; minor = minor; patch = patch })
at_end major minor (patch, c ∷ s) = none

abbrev drop_v : Text → Text
drop_v [] = []
drop_v (c ∷ s) = if eqb c 118 then s else c ∷ s

-- `SemVer.parse`.
unfoldable pub parse : Text → Option SemVer
parse s =
    and_then
      (λ major.
        and_then (λ minor. and_then (λ patch. at_end major.0 minor.0 patch) (dot_number minor.1))
          (dot_number major.1))
      (number (drop_v s))

pub record Tag : Type 0 where
  pub name : Text
  pub semver : SemVer
  pub date : Text

-- The tuple order on `(major, minor, patch)`.
pub semver_lt : SemVer → SemVer → Bool
semver_lt a b =
    ltb a.major b.major
    || (eqb a.major b.major
        && (ltb a.minor b.minor || (eqb a.minor b.minor && ltb a.patch b.patch)))

-- `line.split('|', 1)`, where there is a bar.
abbrev split_bar : Text → Option (Text × Text)
split_bar [] = none
split_bar (c ∷ s) =
    let rest = split_bar s in
    if eqb c 124 then some ([], s) else and_then (λ p. some (c ∷ p.0, p.1)) rest

-- The tag of a line; `date_of` is the date that `git log` prints for a name.
pub tag_of : (Text → Text) → Text → Option Tag
tag_of date_of line =
    and_then
      (λ p.
        and_then
          (λ v.
            some
              (record { name = p.0; semver = v; date = if is_empty p.1 then date_of p.0 else p.1 }))
          (parse p.0))
      (split_bar line)

abbrev with_tag : Option Tag → List Tag → List Tag
with_tag none tags = tags
with_tag (some t) tags = t ∷ tags

pub tags_of : (Text → Text) → List Text → List Tag
tags_of date_of [] = []
tags_of date_of (line ∷ lines) = with_tag (tag_of date_of line) (tags_of date_of lines)

-- A stable sort by version.
pub insert_tag : Tag → List Tag → List Tag
insert_tag t [] = t ∷ []
insert_tag t (u ∷ us) =
    let rest = insert_tag t us in if semver_lt u.semver t.semver then u ∷ rest else t ∷ u ∷ us

pub sort_tags : List Tag → List Tag
sort_tags [] = []
sort_tags (t ∷ ts) = insert_tag t (sort_tags ts)

-- `get_semver_tags`, on the output of `git for-each-ref`.
pub get_semver_tags : (Text → Text) → Text → List Tag
get_semver_tags date_of out = sort_tags (tags_of date_of (splitlines out))

abbrev unless_blank : Text → List Text → List Text
unless_blank [] rest = rest
unless_blank (c ∷ s) rest = (c ∷ s) ∷ rest

-- `[line.strip() for line in lines if line.strip()]`.
pub subjects : List Text → List Text
subjects [] = []
subjects (line ∷ lines) = unless_blank (strip line) (subjects lines)

-- `get_commits`, on the output of `git log`.
pub get_commits : Text → List Text
get_commits out = subjects (splitlines out)
