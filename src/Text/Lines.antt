-- ===== src/Text/Lines.antt =====
-- Texts that are written line by line, and what a reader gets back from them.
use postfixblocker.Prelude.{
  ℕ, suc, ◌+◌, ◌<◌, ◌≡◌, refl, ap, ◌∙◌, false, ◌&&◌, List, [], ◌∷◌, ◌++◌, append_assoc, arith, eqb,
  if◌then◌else◌, All, length, Bool-cases, inl, inr,
}
use postfixblocker.Text.{Text, join, is_break, starts_with, splitlines, cons_line}

abbrev pub lf : Text
lf = 10 ∷ []

-- A file with a line feed behind each line.
unfoldable pub terminate : List Text → Text
terminate [] = []
terminate (l ∷ ls) = l ++ (10 ∷ terminate ls)

-- `'\n'.join(lines) + '\n'` is that file, where there is a line at all.
pub join-terminate : (l : Text) (ls : List Text) → join lf (l ∷ ls) ++ lf ≡ terminate (l ∷ ls)
unfolding join terminate
join-terminate l [] = refl
join-terminate l (m ∷ ls) = rw (append_assoc l _ lf) (ap (λ t. l ++ (10 ∷ t)) (join-terminate m ls))

abbrev pub NoBreak : Text → Type 0
NoBreak = All (λ c. is_break c ≡ false)

splitlines-line : (l rest : Text) → NoBreak l → splitlines (l ++ (10 ∷ rest)) ≡ l ∷ splitlines rest
unfolding splitlines
splitlines-line [] rest h = refl
splitlines-line (c ∷ l) rest h = ground (arith, splitlines-line l rest h.1)

-- Lines without a line boundary are read back as they were written.
pub splitlines-terminate : (ls : List Text) → All NoBreak ls → splitlines (terminate ls) ≡ ls
unfolding terminate
splitlines-terminate [] h = unfold splitlines in refl
splitlines-terminate (l ∷ ls) h =
    splitlines-line l (terminate ls) h.0 ∙ ap (◌∷◌ l) (splitlines-terminate ls h.1)

cons_line-NoBreak :
    (c : ℕ) (ls : List Text) → is_break c ≡ false → All NoBreak ls → All NoBreak (cons_line c ls)
cons_line-NoBreak c [] b h = ((b, tt), tt)
cons_line-NoBreak c (l ∷ ls) b h = ((b, h.0), h.1)

-- No line that `splitlines` returns holds a boundary.
pub splitlines-NoBreak : (s : Text) → All NoBreak (splitlines s)
unfolding splitlines
splitlines-NoBreak [] = tt
splitlines-NoBreak (c ∷ s) = elim (Bool-cases (eqb c 13 && starts_with lf s)) [
  | inl crlf ↦ rw crlf (splitlines-NoBreak s)
  | inr other ↦ rw other (elim (Bool-cases (is_break c)) [
    | inl at_break ↦ rw at_break (tt, splitlines-NoBreak s)
    | inr inside ↦ rw inside (cons_line-NoBreak c (splitlines s) inside (splitlines-NoBreak s))
  ])
]

-- The lines of a file as a program reads them that knows the line feed alone.
unfoldable pub split_lf : Text → List Text
split_lf [] = []
split_lf (c ∷ s) = let rest = split_lf s in if eqb c 10 then [] ∷ rest else cons_line c rest

-- The number of line feeds in a text.
abbrev pub count_lf : Text → ℕ
count_lf [] = 0
count_lf (c ∷ s) = if eqb c 10 then suc (count_lf s) else count_lf s

abbrev pub NoLf : Text → Type 0
NoLf = All (λ c. eqb c 10 ≡ false)

split_lf-line : (l rest : Text) → NoLf l → split_lf (l ++ (10 ∷ rest)) ≡ l ∷ split_lf rest
unfolding split_lf
split_lf-line [] rest h = refl
split_lf-line (c ∷ l) rest h = ground (arith, split_lf-line l rest h.1)

-- Lines without a line feed are read back as they were written.
pub split_lf-terminate : (ls : List Text) → All NoLf ls → split_lf (terminate ls) ≡ ls
unfolding terminate
split_lf-terminate [] h = unfold split_lf in refl
split_lf-terminate (l ∷ ls) h =
    split_lf-line l (terminate ls) h.0 ∙ ap (◌∷◌ l) (split_lf-terminate ls h.1)

pub count_lf-append : (s t : Text) → count_lf (s ++ t) ≡ count_lf s + count_lf t
count_lf-append [] t = omega arith
count_lf-append (c ∷ s) t = ground (arith, count_lf-append s t)

length-cons_line : (c : ℕ) (ls : List Text) → 0 < length ls → length (cons_line c ls) ≡ length ls
length-cons_line c [] h = absurd (omega arith)
length-cons_line c (l ∷ ls) h = refl

-- A reader counts one line for a terminated line and one more for each line feed inside it.
pub length-split_lf :
    (s rest : Text) → length (split_lf (s ++ (10 ∷ rest))) ≡ count_lf s + 1 + length (split_lf rest)
unfolding split_lf
length-split_lf [] rest = omega arith
length-split_lf (c ∷ s) rest =
    ground (arith, length-split_lf s rest, length-cons_line c (split_lf (s ++ (10 ∷ rest))))

pub length-split_lf-terminate :
    (l : Text) (ls : List Text)
    → length (split_lf (terminate (l ∷ ls))) ≡ count_lf l + 1 + length (split_lf (terminate ls))
unfolding terminate
length-split_lf-terminate l ls = length-split_lf l (terminate ls)
