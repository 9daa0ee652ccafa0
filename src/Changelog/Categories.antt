-- ===== src/Changelog/Categories.antt =====
-- The categories of commits, and that each commit is listed once.
use postfixblocker.Prelude.{
  ℕ, suc, ◌+◌, ◌≡◌, sym, ap, ◌∙◌, Bool, Option, none, some, List, [], ◌∷◌, ◌++◌, append_assoc,
  append-nil, map, eqb, keep, drop, length, length-append, if◌then◌else◌, arith,
}
use postfixblocker.Text.{Text, codes, strip, lower, starts_with}

pub data Category : Type 0 where
  feat fix perf refactor docs test ci build chore revert other : Category

-- CATEGORY_ORDER.
abbrev pub category_order : List Category
category_order =
    feat ∷ fix ∷ perf ∷ refactor ∷ docs ∷ test ∷ ci ∷ build ∷ chore ∷ revert ∷ other ∷ []

unfoldable pub key : Category → Text
key feat = codes "feat"
key fix = codes "fix"
key perf = codes "perf"
key refactor = codes "refactor"
key docs = codes "docs"
key test = codes "test"
key ci = codes "ci"
key build = codes "build"
key chore = codes "chore"
key revert = codes "revert"
key other = codes "other"

abbrev pub index : Category → ℕ
index feat = 0
index fix = 1
index perf = 2
index refactor = 3
index docs = 4
index test = 5
index ci = 6
index build = 7
index chore = 8
index revert = 9
index other = 10

abbrev pub same : Category → Category → Bool
same j k = eqb (index j) (index k)

-- `:\s*(.+)$`, whose group is then stripped.
abbrev after_colon : Text → Option Text
after_colon [] = none
after_colon (c ∷ []) = none
after_colon (c ∷ d ∷ s) = if eqb c 58 then some (strip (d ∷ s)) else none

abbrev first_of : Option Text → Option Text → Option Text
first_of none b = b
first_of (some s) b = some s

-- The rest of `\(.+?\)` behind its first character, and what follows.
abbrev after_scope : Text → Option Text
after_scope [] = none
after_scope (c ∷ s) =
    let rest = after_scope s in if eqb c 41 then first_of (after_colon s) rest else rest

abbrev in_scope : Text → Option Text
in_scope [] = none
in_scope (c ∷ s) = after_scope s

-- `(?:\(.+?\))?:\s*(.+)$`.
abbrev after_type : Text → Option Text
after_type [] = none
after_type (c ∷ s) = if eqb c 40 then in_scope s else after_colon (c ∷ s)

abbrev entry_or : Category → Option Text → Category × Text → Category × Text
entry_or k none rest = rest
entry_or k (some s) rest = (k, s)

-- TYPE_RE at a subject line, with the alternatives that are left to try.
abbrev match_type : List Category → Text → Category × Text
match_type [] msg = (other, msg)
match_type (k ∷ ks) msg =
    let rest = match_type ks msg in
    if starts_with (key k) (lower msg)
    then entry_or k (after_type (drop (length (key k)) msg)) rest
    else rest

abbrev alternatives : List Category
alternatives = feat ∷ fix ∷ docs ∷ chore ∷ refactor ∷ perf ∷ test ∷ ci ∷ build ∷ revert ∷ []

-- The category of a subject line, and the text that is listed.
unfoldable pub entry_of : Text → Category × Text
entry_of msg = match_type alternatives msg

abbrev pub Buckets : Type 0
Buckets = Category → List Text

-- `buckets[key].append(item)`.
pub put : Category × Text → Buckets → Buckets
put (k, item) buckets j = if same j k then buckets j ++ item ∷ [] else buckets j

pub categorize_from : Buckets → List Text → Buckets
categorize_from buckets [] = buckets
categorize_from buckets (msg ∷ commits) = categorize_from (put (entry_of msg) buckets) commits

pub categorize : List Text → Buckets
categorize commits = categorize_from (λ k. []) commits

-- The texts of the commits of a category, in order.
abbrev pub listed : Category → List Text → List Text
listed k commits = map (λ m. (entry_of m).1) (keep (λ m. same k (entry_of m).0) commits)

put-listed :
    (buckets : Buckets) (msg : Text) (k : Category) (rest : List Text)
    → put (entry_of msg) buckets k ++ listed k rest ≡ buckets k ++ listed k (msg ∷ rest)
unfolding put
put-listed buckets msg k rest =
    ground (arith, append_assoc (buckets k) ((entry_of msg).1 ∷ []) (listed k rest))

categorize_from-listed :
    (buckets : Buckets) (commits : List Text) (k : Category)
    → categorize_from buckets commits k ≡ buckets k ++ listed k commits
unfolding categorize_from
categorize_from-listed buckets [] k = sym (append-nil (buckets k))
categorize_from-listed buckets (msg ∷ commits) k =
    categorize_from-listed (put (entry_of msg) buckets) commits k ∙ put-listed buckets msg k commits

abbrev count_in : List Category → Buckets → ℕ
count_in [] buckets = 0
count_in (k ∷ ks) buckets = length (buckets k) + count_in ks buckets

-- The number of the items in all the buckets.
abbrev pub total : Buckets → ℕ
total buckets = count_in category_order buckets

-- How often a category stands in a list of them.
abbrev times : Category → List Category → ℕ
times k [] = 0
times k (j ∷ js) = let rest = times k js in if same k j then suc rest else rest

times-category_order : (k : Category) → times k category_order ≡ 1
times-category_order k = ground arith

length-put :
    (k j : Category) (item : Text) (buckets : Buckets)
    → length (put (k, item) buckets j)
      ≡ (if same k j then suc (length (buckets j)) else length (buckets j))
unfolding put
length-put k j item buckets = ground (arith, length-append (buckets j) (item ∷ []))

count_in-put :
    (k : Category) (item : Text) (buckets : Buckets) (ks : List Category)
    → count_in ks (put (k, item) buckets) ≡ times k ks + count_in ks buckets
count_in-put k item buckets [] = omega arith
count_in-put k item buckets (j ∷ js) =
    ground (arith, length-put k j item buckets, count_in-put k item buckets js)

total-put :
    (k : Category) (item : Text) (buckets : Buckets)
    → total (put (k, item) buckets) ≡ suc (total buckets)
total-put k item buckets =
    count_in-put k item buckets category_order
    ∙ ap (λ n. n + total buckets) (times-category_order k)
    ∙ omega arith

total-categorize_from :
    (buckets : Buckets) (commits : List Text)
    → total (categorize_from buckets commits) ≡ total buckets + length commits
unfolding categorize_from
total-categorize_from buckets [] = omega arith
total-categorize_from buckets (msg ∷ commits) =
    total-categorize_from (put (entry_of msg) buckets) commits
    ∙ ap (λ n. n + length commits) (total-put (entry_of msg).0 (entry_of msg).1 buckets)
    ∙ omega arith

-- Every commit is listed exactly once: a category lists the texts of its commits, in order, and all
-- the categories together list as many as there are commits.
pub categorize-listed :
    (commits : List Text)
    → ((k : Category) → categorize commits k ≡ listed k commits)
      × (total (categorize commits) ≡ length commits)
unfolding categorize
categorize-listed commits = (
  λ k. categorize_from-listed (λ j. []) commits k,
  total-categorize_from (λ j. []) commits ∙ omega arith,
)
