-- ===== src/Text.antt =====
-- Python's `str` as the list of its code points, with the methods that the program calls.
-- `upper` and `lower` map the ASCII letters and keep every other code point.
pub mod Strip
pub mod Decimal
pub mod Lines
use Prim.Native.Char.{code}
use postfixblocker.Prelude.{
  ℕ, suc, ◌+◌, ◌-◌, String, ◌≡◌, refl, ◌↔◌, Bool, true, false, ◌&&◌, ◌||◌, List, [], ◌∷◌, ◌++◌, map,
  reverse, arith, ltb, leb, eqb, if◌then◌else◌,
}

abbrev pub Text : Type 0
Text = List ℕ

-- A literal of the source.
abbrev pub codes : String → Text
codes String.[] = []
codes (String.◌∷◌ c s) = code c ∷ codes s

infix 50 ◌==◌
unfoldable pub ◌==◌ : Text → Text → Bool
[] == [] = true
[] == (d ∷ t) = false
(c ∷ s) == [] = false
(c ∷ s) == (d ∷ t) = eqb c d && s == t

pub ==_iff : (s t : Text) → ((s == t) ≡ true) ↔ (s ≡ t)
unfolding ◌==◌
==_iff [] [] = ground arith
==_iff [] (d ∷ t) = ground arith
==_iff (c ∷ s) [] = ground arith
==_iff (c ∷ s) (d ∷ t) = ground (arith, ==_iff s t)

pub ==_self : (s : Text) → (s == s) ≡ true
==_self s = (==_iff s s).1 refl

-- The truth value of a `str`.
abbrev pub is_empty : Text → Bool
is_empty [] = true
is_empty (c ∷ s) = false

-- `str.isspace`, for one code point.
unfoldable pub is_space : ℕ → Bool
is_space c =
    (leb 9 c && leb c 13)
    || (leb 28 c && leb c 32)
    || eqb c 133
    || eqb c 160
    || eqb c 5760
    || (leb 8192 c && leb c 8202)
    || eqb c 8232
    || eqb c 8233
    || eqb c 8239
    || eqb c 8287
    || eqb c 12288

unfoldable pub lstrip : Text → Text
lstrip [] = []
lstrip (c ∷ s) = let rest = lstrip s in if is_space c then rest else c ∷ s

unfoldable pub rstrip : Text → Text
rstrip [] = []
rstrip (c ∷ s) = let rest = rstrip s in if is_space c && is_empty rest then [] else c ∷ rest

unfoldable pub strip : Text → Text
unfolding lstrip rstrip
strip s = rstrip (lstrip s)

abbrev to_upper : ℕ → ℕ
to_upper c = if leb b'a' c && leb c b'z' then c - 32 else c

abbrev to_lower : ℕ → ℕ
to_lower c = if leb b'A' c && leb c b'Z' then c + 32 else c

unfoldable pub upper : Text → Text
upper s = map to_upper s

unfoldable pub lower : Text → Text
lower s = map to_lower s

-- `s.startswith(p)`, with the prefix first.
unfoldable pub starts_with : Text → Text → Bool
starts_with [] s = true
starts_with (d ∷ p) [] = false
starts_with (d ∷ p) (c ∷ s) = eqb d c && starts_with p s

-- `p in s`.
unfoldable pub contains : Text → Text → Bool
unfolding starts_with
contains p [] = is_empty p
contains p (c ∷ s) = starts_with p (c ∷ s) || contains p s

-- `sep.join(parts)`.
unfoldable pub join : Text → List Text → Text
join sep [] = []
join sep (s ∷ []) = s
join sep (s ∷ t ∷ rest) = s ++ (sep ++ join sep (t ∷ rest))

-- The line boundaries of `str.splitlines`.
unfoldable pub is_break : ℕ → Bool
is_break c =
    (leb 10 c && leb c 13) || (leb 28 c && leb c 30) || eqb c 133 || eqb c 8232 || eqb c 8233

abbrev pub cons_line : ℕ → List Text → List Text
cons_line c [] = (c ∷ []) ∷ []
cons_line c (l ∷ ls) = (c ∷ l) ∷ ls

-- `s.splitlines()`: a carriage return before a line feed is a part of that boundary.
unfoldable pub splitlines : Text → List Text
unfolding is_break starts_with
splitlines [] = []
splitlines (c ∷ s) =
    let rest = splitlines s in
    if eqb c 13 && starts_with (10 ∷ []) s
    then rest
    else if is_break c
    then [] ∷ rest
    else cons_line c rest

splitlines_test :
    splitlines (codes "a" ++ (13 ∷ 10 ∷ 10 ∷ []) ++ codes "b") ≡ codes "a" ∷ [] ∷ codes "b" ∷ []
unfolding splitlines
splitlines_test = refl

strip_test : strip (upper (codes "  a b ")) ≡ codes "A B"
unfolding strip upper is_space
strip_test = refl
