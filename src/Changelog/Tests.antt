-- ===== src/Changelog/Tests.antt =====
-- A history of two tags.
use postfixblocker.Prelude.{ℕ, ◌≡◌, refl, none, some, List, [], ◌∷◌}
use postfixblocker.Text.{Text, codes, lower, starts_with, strip, is_space}
use postfixblocker.Changelog.{Tag, parse, semver_lt}
use postfixblocker.Changelog.Categories.{feat, fix, other, key, entry_of}
use postfixblocker.Changelog.Releases.{Ascending}

parse_test : parse (codes "v1.20.3") ≡ some (record { major = 1; minor = 20; patch = 3 })
unfolding parse
parse_test = refl

parse_test_rest : parse (codes "v1.20.3-rc1") ≡ none
unfolding parse
parse_test_rest = refl

abbrev commits : List Text
commits = codes "Feat(api): add x" ∷ codes "feat:" ∷ codes "fix(a)b): y" ∷ []

abbrev tag : Text → ℕ → Tag
tag name minor = record {
  name = name;
  semver = record { major = 1; minor = minor; patch = 0 };
  date = codes "2024-01-01";
}

abbrev tags : List Tag
tags = tag (codes "v1.0.0") 0 ∷ tag (codes "v1.1.0") 1 ∷ []

abbrev printed : Text → Text
printed r = codes "fix: something"

tags-Ascending : Ascending tags
unfolding semver_lt
tags-Ascending = ((refl, tt), (tt, tt))

entry_test : entry_of (codes "Feat(api): add x") ≡ (feat, codes "add x")
unfolding entry_of key lower starts_with strip is_space
entry_test = refl

entry_test_scope : entry_of (codes "fix(a)b): y") ≡ (fix, codes "y")
unfolding entry_of key lower starts_with strip is_space
entry_test_scope = refl

entry_test_empty : entry_of (codes "fix:") ≡ (other, codes "fix:")
unfolding entry_of key lower starts_with strip is_space
entry_test_empty = refl
