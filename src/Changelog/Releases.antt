-- ===== src/Changelog/Releases.antt =====
-- `build_releases` of scripts/generate_changelog.py, and the order of the releases. The state is the
-- list of the ranges that git was asked for.
use mathlib.Core.List.{reverse-cons}
use postfixblocker.Prelude.{
  ◌≡◌, refl, sym, ap, ◌∙◌, Bool, true, false, Option, none, some, List, [], ◌∷◌, ◌++◌, append_assoc,
  append-nil, if◌then◌else◌, All, All-reverse, reverse,
}
use postfixblocker.Text.{Text, codes}
use postfixblocker.Exec.{Outcome, ok, Exec, pure, ◌>>=◌}
use postfixblocker.Changelog.{Tag, semver_lt, get_commits}
use postfixblocker.Changelog.Categories.{Buckets, categorize}

-- A release, without a tag for what is not released.
pub record Release : Type 0 where
  pub tag : Option Tag
  pub commits_by_type : Buckets

-- `rel_key(r) < rel_key(q)`.
pub release_lt : Option Tag → Option Tag → Bool
release_lt none q = false
release_lt (some t) none = true
release_lt (some t) (some u) = semver_lt t.semver u.semver

-- `releases.sort(key=rel_key, reverse=True)`, which keeps the order of equal keys.
pub insert_release : Release → List Release → List Release
insert_release r [] = r ∷ []
insert_release r (q ∷ qs) =
    let rest = insert_release r qs in if release_lt r.tag q.tag then q ∷ rest else r ∷ q ∷ qs

pub sort_releases : List Release → List Release
sort_releases [] = []
sort_releases (r ∷ rs) = insert_release r (sort_releases rs)

abbrev range : Text → Text → Text
range from to = from ++ (codes ".." ++ to)

-- The range up to a tag, from the one before it.
abbrev range_to : Option Tag → Tag → Text
range_to none tag = tag.name
range_to (some prev) tag = range prev.name tag.name

abbrev pub last_range : Option Tag → List Tag → Text
last_range none [] = codes "HEAD"
last_range (some t) [] = range t.name (codes "HEAD")
last_range o (t ∷ ts) = last_range (some t) ts

module _ (log : Text → Outcome Text) where
  abbrev ask : Text → Exec (List Text) Text
  ask r asked = (log r, asked ++ r ∷ [])

  -- The loop over the tags.
  pub tagged_releases : Option Tag → List Tag → Exec (List Text) (List Release)
  tagged_releases prev [] = pure []
  tagged_releases prev (tag ∷ tags) = do
    out ← ask (range_to prev tag)
    rest ← tagged_releases (some tag) tags
    pure (record { tag = some tag; commits_by_type = categorize (get_commits out) } ∷ rest)

  abbrev pub unreleased : List Text → List Release
  unreleased [] = []
  unreleased (c ∷ cs) = record { tag = none; commits_by_type = categorize (c ∷ cs) } ∷ []

  pub build_releases : List Tag → Exec (List Text) (List Release)
  build_releases tags = do
    out ← ask (last_range none tags)
    rest ← tagged_releases none tags
    pure (sort_releases (unreleased (get_commits out) ++ rest))

-- Versions that grow strictly.
abbrev pub Ascending : List Tag → Type 0
Ascending [] = Unit
Ascending (t ∷ ts) = All (λ u. semver_lt t.semver u.semver ≡ true) ts × Ascending ts

abbrev IsBelow : Release → Release → Type 0
IsBelow r q = release_lt r.tag q.tag ≡ true

insert_release-IsBelow :
    (r : Release) (qs : List Release) → All (IsBelow r) qs → insert_release r qs ≡ qs ++ r ∷ []
unfolding insert_release
insert_release-IsBelow r [] h = refl
insert_release-IsBelow r (q ∷ qs) h = rw h.0 (ap (◌∷◌ q) (insert_release-IsBelow r qs h.1))

insert_release-none :
    (b : Buckets) (qs : List Release)
    → insert_release (record { tag = none; commits_by_type = b }) qs
      ≡ record { tag = none; commits_by_type = b } ∷ qs
unfolding insert_release release_lt
insert_release-none b [] = refl
insert_release-none b (q ∷ qs) = refl

module _ (outs : Text → Text) where
  -- The releases of the tags, each with the commits that git prints between the tag before and it.
  abbrev pub releases_of : Option Tag → List Tag → List Release
  releases_of prev [] = []
  releases_of prev (t ∷ ts) =
      record { tag = some t; commits_by_type = categorize (get_commits (outs (range_to prev t))) }
      ∷ releases_of (some t) ts

  -- The ranges: up to the first tag, and then from each tag to the next one.
  abbrev pub ranges_of : Option Tag → List Tag → List Text
  ranges_of prev [] = []
  ranges_of prev (t ∷ ts) = range_to prev t ∷ ranges_of (some t) ts

  releases_of-IsBelow :
      (t : Tag) (b : Buckets) (prev : Option Tag) (ts : List Tag)
      → All (λ u. semver_lt t.semver u.semver ≡ true) ts
      → All (IsBelow (record { tag = some t; commits_by_type = b })) (releases_of prev ts)
  unfolding release_lt
  releases_of-IsBelow t b prev [] h = tt
  releases_of-IsBelow t b prev (u ∷ us) h = (h.0, releases_of-IsBelow t b (some u) us h.1)

  sort-releases_of :
      (prev : Option Tag) (ts : List Tag)
      → Ascending ts
      → sort_releases (releases_of prev ts) ≡ reverse (releases_of prev ts)
  unfolding sort_releases
  sort-releases_of prev [] h = refl
  sort-releases_of prev (t ∷ ts) h =
      let b = categorize (get_commits (outs (range_to prev t))) in
      let r : Release = record { tag = some t; commits_by_type = b } in
      ap (insert_release r) (sort-releases_of (some t) ts h.1)
      ∙ insert_release-IsBelow r (reverse (releases_of (some t) ts)) (
          All-reverse (IsBelow r) (releases_of (some t) ts)
            (releases_of-IsBelow t b (some t) ts h.0))
      ∙ sym (reverse-cons r (releases_of (some t) ts))

  tagged_releases_lem :
      (log : Text → Outcome Text) (answers : (r : Text) → log r ≡ ok (outs r)) (prev : Option Tag)
      (ts : List Tag) (asked : List Text)
      → tagged_releases log prev ts asked ≡ (ok (releases_of prev ts), asked ++ ranges_of prev ts)
  unfolding tagged_releases
  tagged_releases_lem log answers prev [] asked = ap (λ l. (ok [], l)) (sym (append-nil asked))
  tagged_releases_lem log answers prev (t ∷ ts) asked =
      rw
        (
          answers (range_to prev t),
          tagged_releases_lem log answers (some t) ts (asked ++ range_to prev t ∷ []),
        )
        (ap (λ l. (ok (releases_of prev (t ∷ ts)), l))
          (append_assoc asked (range_to prev t ∷ []) (ranges_of (some t) ts)))

  sort-unreleased :
      (log : Text → Outcome Text) (commits : List Text) (ts : List Tag)
      → Ascending ts
      → sort_releases (unreleased log commits ++ releases_of none ts)
        ≡ unreleased log commits ++ reverse (releases_of none ts)
  unfolding sort_releases
  sort-unreleased log [] ts h = sort-releases_of none ts h
  sort-unreleased log (c ∷ cs) ts h =
      ap (insert_release (record { tag = none; commits_by_type = categorize (c ∷ cs) }))
        (sort-releases_of none ts h)
      ∙ insert_release-none (categorize (c ∷ cs)) (reverse (releases_of none ts))

  -- Where git answers and the versions of the tags grow, git is asked for the range behind the last
  -- tag and then for the ranges up to the first tag and between the tags, and the result is the
  -- release of what is not released, if there is any, and then those of the tags, the newest first.
  pub build_releases-reverse :
      (log : Text → Outcome Text) (answers : (r : Text) → log r ≡ ok (outs r)) (tags : List Tag)
      → Ascending tags
      → build_releases log tags [] ≡ (
        ok (
            unreleased log (get_commits (outs (last_range none tags)))
            ++ reverse (releases_of none tags)),
        last_range none tags ∷ ranges_of none tags,
      )
  unfolding build_releases
  build_releases-reverse log answers tags h =
      rw
        (
          answers (last_range none tags),
          tagged_releases_lem log answers none tags (last_range none tags ∷ []),
          sort-unreleased log (get_commits (outs (last_range none tags))) tags h,
        )
        refl
