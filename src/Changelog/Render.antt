-- ===== src/Changelog/Render.antt =====
-- `render` and the whole of scripts/generate_changelog.py; `today` is the date of the run.
use postfixblocker.Prelude.{Option, none, some, List, [], ◌∷◌, ◌++◌}
use postfixblocker.Text.{Text, codes, join, rstrip}
use postfixblocker.Text.Lines.{lf}
use postfixblocker.Exec.{Outcome, Exec, pure, ◌>>=◌}
use postfixblocker.Changelog.{Tag, get_semver_tags}
use postfixblocker.Changelog.Categories.{
  Category, feat, fix, perf, refactor, docs, test, ci, build, chore, revert, other, category_order,
  Buckets,
}
use postfixblocker.Changelog.Releases.{Release, build_releases}

-- The titles of CATEGORY_ORDER.
pub title : Category → Text
title feat = codes "Features"
title fix = codes "Fixes"
title perf = codes "Performance"
title refactor = codes "Refactoring"
title docs = codes "Documentation"
title test = codes "Tests"
title ci = codes "CI"
title build = codes "Build"
title chore = codes "Chores"
title revert = codes "Reverts"
title other = codes "Other"

abbrev pub item_lines : List Text → List Text
item_lines [] = []
item_lines (item ∷ items) = (codes "- " ++ item) ∷ item_lines items

-- The lines of a category that is not empty.
abbrev pub section_lines : Category → List Text → List Text
section_lines k [] = []
section_lines k (item ∷ items) = (codes "### " ++ title k) ∷ item_lines (item ∷ items) ++ [] ∷ []

abbrev pub sections : List Category → Buckets → List Text
sections [] buckets = []
sections (k ∷ ks) buckets = section_lines k (buckets k) ++ sections ks buckets

abbrev or_no_changes : List Text → List Text
or_no_changes [] = codes "(no notable changes)" ∷ [] ∷ []
or_no_changes (l ∷ ls) = l ∷ ls

abbrev header_line : Text → Option Tag → Text
header_line today none = codes "## [Unreleased] (as of " ++ (today ++ codes ")")
header_line today (some t) = codes "## " ++ (t.name ++ (codes " - " ++ t.date))

abbrev pub release_lines : Text → Release → List Text
release_lines today r =
    header_line today r.tag ∷ or_no_changes (sections category_order r.commits_by_type)

abbrev pub all_lines : Text → List Release → List Text
all_lines today [] = []
all_lines today (r ∷ rs) = release_lines today r ++ all_lines today rs

abbrev preamble : List Text
preamble =
    codes "# Changelog"
    ∷ []
    ∷ codes "All notable changes to this project are documented here."
    ∷ codes "This file is auto-generated from Git history. Do not edit by hand."
    ∷ []
    ∷ []

pub render : Text → List Release → Text
render today releases = rstrip (join lf (preamble ++ all_lines today releases)) ++ lf

-- `main` inside a repository: what it prints.
pub changelog : Text → (Text → Text) → Text → (Text → Outcome Text) → Exec (List Text) Text
changelog today date_of tags log = do
  releases ← build_releases log (get_semver_tags date_of tags)
  pure (render today releases)
