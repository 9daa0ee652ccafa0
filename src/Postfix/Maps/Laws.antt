-- ===== src/Postfix/Maps/Laws.antt =====
-- What the four map files hold.
use postfixblocker.Prelude.{
  ℕ, ◌+◌, ◌≡◌, refl, ap, ◌∙◌, Bool, true, false, not, ◌&&◌, List, [], ◌∷◌, ◌++◌, map, arith, keep,
  All, All-append, Bool-cases, append_assoc, append-nil, length, inl, inr,
}
use postfixblocker.Text.{Text, codes}
use postfixblocker.Text.Lines.{
  terminate, join-terminate, split_lf, split_lf-terminate, NoLf, count_lf, count_lf-append,
  length-split_lf-terminate,
}
use postfixblocker.Postfix.Maps.{
  BlockEntry, reject_suffix, line_lit, line_re, MapLines, no_lines, add_entry, gather, render,
  MapFiles, MapName, literal, regex, test_literal, test_regex, content_of, WriteOutcome, written,
  cut, write_lines, write_map_files,
}

-- The specification: which entries each file is to have, and by what lines.
abbrev pub chosen : MapName → BlockEntry → Bool
chosen literal e = not e.test_mode && not e.is_regex
chosen regex e = not e.test_mode && e.is_regex
chosen test_literal e = e.test_mode && not e.is_regex
chosen test_regex e = e.test_mode && e.is_regex

abbrev pub line_for : MapName → BlockEntry → Text
line_for literal e = line_lit e
line_for regex e = line_re e
line_for test_literal e = line_lit e
line_for test_regex e = line_re e

abbrev pub expected : MapName → List BlockEntry → List Text
expected n es = map (line_for n) (keep (chosen n) es)

abbrev lines_of : MapLines → MapName → List Text
lines_of m literal = m.literal
lines_of m regex = m.regex
lines_of m test_literal = m.test_literal
lines_of m test_regex = m.test_regex

add_entry-expected :
    (m : MapLines) (e : BlockEntry) (n : MapName)
    → lines_of (add_entry m e) n ≡ lines_of m n ++ expected n (e ∷ [])
unfolding add_entry
add_entry-expected m e literal = ground (arith, append-nil m.literal)
add_entry-expected m e regex = ground (arith, append-nil m.regex)
add_entry-expected m e test_literal = ground (arith, append-nil m.test_literal)
add_entry-expected m e test_regex = ground (arith, append-nil m.test_regex)

expected-cons :
    (n : MapName) (e : BlockEntry) (es : List BlockEntry)
    → expected n (e ∷ es) ≡ expected n (e ∷ []) ++ expected n es
expected-cons n e es = ground arith

gather-expected :
    (m : MapLines) (es : List BlockEntry) (n : MapName)
    → lines_of (gather m es) n ≡ lines_of m n ++ expected n es
unfolding gather
gather-expected m [] n = rw append-nil
gather-expected m (e ∷ es) n =
    rw
      (gather-expected (add_entry m e) es n, add_entry-expected, expected-cons n e es, append_assoc)

pub render-terminate : (ls : List Text) → render ls ≡ terminate ls
unfolding render terminate
render-terminate [] = refl
render-terminate (l ∷ ls) = join-terminate l ls

write_lines-written :
    (outcome : MapName → WriteOutcome) (m : MapLines) (f : MapFiles) (n : MapName)
    → (write_lines outcome m f).1 ≡ true
    → content_of (write_lines outcome m f).0 n ≡ render (lines_of m n)
unfolding write_lines
write_lines-written outcome m f literal h = ground arith
write_lines-written outcome m f regex h = ground arith
write_lines-written outcome m f test_literal h = ground arith
write_lines-written outcome m f test_regex h = ground arith

nothing_before : (n : MapName) → lines_of no_lines n ≡ []
nothing_before literal = refl
nothing_before regex = refl
nothing_before test_literal = refl
nothing_before test_regex = refl

line_lit-NoLf : (e : BlockEntry) → NoLf e.pattern → NoLf (line_lit e)
line_lit-NoLf e h = All-append _ e.pattern reject_suffix h (ground arith)

line_re-NoLf : (e : BlockEntry) → NoLf e.pattern → NoLf (line_re e)
line_re-NoLf e h = (refl, All-append _ e.pattern (codes "/ REJECT") h (ground arith))

line_for-NoLf : (n : MapName) (e : BlockEntry) → NoLf e.pattern → NoLf (line_for n e)
line_for-NoLf literal e h = line_lit-NoLf e h
line_for-NoLf regex e h = line_re-NoLf e h
line_for-NoLf test_literal e h = line_lit-NoLf e h
line_for-NoLf test_regex e h = line_re-NoLf e h

count_lf-line_for : (n : MapName) (e : BlockEntry) → count_lf (line_for n e) ≡ count_lf e.pattern
count_lf-line_for literal e = omega (arith, count_lf-append e.pattern reject_suffix)
count_lf-line_for regex e = omega (arith, count_lf-append e.pattern (codes "/ REJECT"))
count_lf-line_for test_literal e = omega (arith, count_lf-append e.pattern reject_suffix)
count_lf-line_for test_regex e = omega (arith, count_lf-append e.pattern (codes "/ REJECT"))

-- The line feeds in the patterns of some entries.
abbrev pub total_lf : List BlockEntry → ℕ
total_lf [] = 0
total_lf (e ∷ es) = count_lf e.pattern + total_lf es

-- After a run that raises nothing, each of the four files holds exactly the lines of the entries of
-- its mode and kind, in the order of the entries, each with a line feed behind it.
pub write_map_files-expected :
    (outcome : MapName → WriteOutcome) (es : List BlockEntry) (f : MapFiles) (n : MapName)
    → (write_map_files outcome es f).1 ≡ true
    → content_of (write_map_files outcome es f).0 n ≡ terminate (expected n es)
unfolding write_map_files
write_map_files-expected outcome es f n h =
    write_lines-written outcome (gather no_lines es) f n h
    ∙ ap render (gather-expected no_lines es n ∙ ap (λ ls. ls ++ expected n es) (nothing_before n))
    ∙ render-terminate (expected n es)

expected-NoLf :
    (n : MapName) (es : List BlockEntry) → All (λ e. NoLf e.pattern) es → All NoLf (expected n es)
expected-NoLf n [] h = tt
expected-NoLf n (e ∷ es) h = elim (Bool-cases (chosen n e)) [
  | inl kept ↦ rw kept (line_for-NoLf n e h.0, expected-NoLf n es h.1)
  | inr left ↦ rw left (expected-NoLf n es h.1)
]

length-terminate-map :
    (n : MapName) (es : List BlockEntry)
    → length (split_lf (terminate (map (line_for n) es))) ≡ length es + total_lf es
length-terminate-map n [] = unfold split_lf terminate in refl
length-terminate-map n (e ∷ es) = omega (
  arith,
  length-split_lf-terminate (line_for n e) (map (line_for n) es),
  count_lf-line_for n e,
  length-terminate-map n es,
)

-- Where no pattern holds a line feed, a reader of such a file gets back those lines, one for each
-- entry of its mode and kind.
pub split_lf-write_map_files :
    (outcome : MapName → WriteOutcome) (es : List BlockEntry) (f : MapFiles) (n : MapName)
    → (write_map_files outcome es f).1 ≡ true
    → All (λ e. NoLf e.pattern) es
    → split_lf (content_of (write_map_files outcome es f).0 n) ≡ expected n es
split_lf-write_map_files outcome es f n h plain =
    ap split_lf (write_map_files-expected outcome es f n h)
    ∙ split_lf-terminate (expected n es) (expected-NoLf n es plain)

-- In general a reader gets one line for each such entry and one more for each line feed that stands
-- in a pattern of such an entry, since patterns are written unescaped.
pub length-write_map_files :
    (outcome : MapName → WriteOutcome) (es : List BlockEntry) (f : MapFiles) (n : MapName)
    → (write_map_files outcome es f).1 ≡ true
    → length (split_lf (content_of (write_map_files outcome es f).0 n))
      ≡ length (keep (chosen n) es) + total_lf (keep (chosen n) es)
length-write_map_files outcome es f n h =
    ap (λ t. length (split_lf t)) (write_map_files-expected outcome es f n h)
    ∙ length-terminate-map n (keep (chosen n) es)

pub write_map_files-written :
    (disk : MapName → WriteOutcome) (es : List BlockEntry) (f : MapFiles)
    → ((n : MapName) → disk n ≡ written)
    → (write_map_files disk es f).1 ≡ true
unfolding write_map_files write_lines
write_map_files-written disk es f good =
    rw
      (good MapName.literal, good MapName.regex, good MapName.test_literal, good MapName.test_regex)
      refl

-- A disk on which the first write is cut short.
abbrev pub full_at_once : MapName → WriteOutcome
full_at_once n = cut 0

pub full_at_once_raises :
    (es : List BlockEntry) (f : MapFiles) → (write_map_files full_at_once es f).1 ≡ false
unfolding write_map_files write_lines
full_at_once_raises es f = refl
