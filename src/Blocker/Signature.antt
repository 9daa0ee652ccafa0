-- ===== src/Blocker/Signature.antt =====
-- The content signature of `_compute_marker_and_hash`: the entries as tuples, sorted.
use postfixblocker.Prelude.{
  ◌≡◌, refl, ap₂, ◌∙◌, Bool, true, false, not, ◌&&◌, ◌||◌, List, [], ◌∷◌, arith, ltb, eqb,
  if◌then◌else◌,
}
use mathlib.Core.List.{Permᴰ}
use postfixblocker.Text.{Text, ◌==◌, ==_iff, ==_self}
use postfixblocker.Postfix.Maps.{BlockEntry}

-- Python's `<` on texts: by code points, a proper prefix first.
unfoldable pub text_lt : Text → Text → Bool
text_lt s [] = false
text_lt [] (d ∷ t) = true
text_lt (c ∷ s) (d ∷ t) = ltb c d || (eqb c d && text_lt s t)

-- `False < True`, and nothing else.
abbrev pub bool_lt : Bool → Bool → Bool
bool_lt false b = b
bool_lt true b = false

abbrev pub bool_eq : Bool → Bool → Bool
bool_eq false b = not b
bool_eq true b = b

-- `<` on the tuples `(pattern, is_regex, test_mode)`.
unfoldable pub entry_lt : BlockEntry → BlockEntry → Bool
entry_lt a b =
    text_lt a.pattern b.pattern
    || (a.pattern == b.pattern
        && (bool_lt a.is_regex b.is_regex
            || (bool_eq a.is_regex b.is_regex && bool_lt a.test_mode b.test_mode)))

-- `sorted`: each element is put before the first one that it is less than.
unfoldable pub insert : BlockEntry → List BlockEntry → List BlockEntry
insert x [] = x ∷ []
insert x (y ∷ ys) = let rest = insert x ys in if entry_lt x y then x ∷ y ∷ ys else y ∷ rest

unfoldable pub sorted : List BlockEntry → List BlockEntry
sorted [] = []
sorted (x ∷ xs) = insert x (sorted xs)

text_lt_irrefl : (s : Text) → text_lt s s ≡ false
unfolding text_lt
text_lt_irrefl [] = refl
text_lt_irrefl (c ∷ s) = ground (arith, text_lt_irrefl s)

text_lt_trans : (s t u : Text) → text_lt s t ≡ true → text_lt t u ≡ true → text_lt s u ≡ true
unfolding text_lt
text_lt_trans s t [] h k = ground (arith)
text_lt_trans s [] (e ∷ u) h k = ground (arith)
text_lt_trans [] (d ∷ t) (e ∷ u) h k = refl
text_lt_trans (c ∷ s) (d ∷ t) (e ∷ u) h k = ground (arith, text_lt_trans s t u)

text_lt_connex : (s t : Text) → text_lt s t ≡ false → text_lt t s ≡ false → s ≡ t
unfolding text_lt
text_lt_connex [] [] h k = refl
text_lt_connex [] (d ∷ t) h k = ground arith
text_lt_connex (c ∷ s) [] h k = ground arith
text_lt_connex (c ∷ s) (d ∷ t) h k = ground (arith, text_lt_connex s t)

text_lt_asym : (s t : Text) → text_lt s t ≡ true → text_lt t s ≡ false
text_lt_asym s t h = ground (arith, text_lt_trans s t s, text_lt_irrefl s)

entry_lt_asym : (a b : BlockEntry) → entry_lt a b ≡ true → entry_lt b a ≡ false
unfolding entry_lt
entry_lt_asym a b h = ground (
  arith,
  text_lt_asym a.pattern b.pattern,
  text_lt_asym b.pattern a.pattern,
  ==_iff a.pattern b.pattern,
  ==_iff b.pattern a.pattern,
)

entry_lt_connex : (a b : BlockEntry) → entry_lt a b ≡ false → entry_lt b a ≡ false → a ≡ b
unfolding entry_lt
entry_lt_connex a b h k =
    let same : a.pattern ≡ b.pattern =
      text_lt_connex a.pattern b.pattern (ground (arith, h)) (ground (arith, k)) in
    ground (arith, same, ==_self a.pattern, ==_self b.pattern)

entry_lt_trans :
    (a b c : BlockEntry) → entry_lt a b ≡ true → entry_lt b c ≡ true → entry_lt a c ≡ true
unfolding entry_lt
entry_lt_trans a b c h k = ground (
  arith,
  text_lt_trans a.pattern b.pattern c.pattern,
  ==_iff a.pattern b.pattern,
  ==_iff b.pattern c.pattern,
  ==_iff a.pattern c.pattern,
)

insert_comm :
    (x y : BlockEntry) (l : List BlockEntry) → insert x (insert y l) ≡ insert y (insert x l)
unfolding insert
insert_comm x y [] = ground (arith, entry_lt_asym x y, entry_lt_asym y x, entry_lt_connex x y)
insert_comm x y (z ∷ l) = ground (
  arith,
  insert_comm x y l,
  entry_lt_asym x y,
  entry_lt_asym y x,
  entry_lt_connex x y,
  entry_lt_trans x y z,
  entry_lt_trans y x z,
)

pub sorted-Perm : {k l : List BlockEntry} → Permᴰ k l → sorted k ≡ sorted l
unfolding sorted
sorted-Perm Permᴰ.nil = refl
sorted-Perm (Permᴰ.cons e p) = ap₂ insert e (sorted-Perm p)
sorted-Perm (Permᴰ.swap {a} {b} {a'} {b'} {l} e f) = rw (e, f) (insert_comm b' a' (sorted l))
sorted-Perm (Permᴰ.trans p q) = sorted-Perm p ∙ sorted-Perm q
