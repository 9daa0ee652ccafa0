-- ===== src/Text/Decimal.antt =====
-- Python's `int(text)` and `str(int)`. Text is read as ASCII decimal digits, with a sign and single
-- underscores between digits. The interpreter's optional limit on the number of digits is off.
pub mod RoundTrip
use postfixblocker.Prelude.{
  ℕ, zero, suc, ◌+◌, ◌-◌, ◌*◌, ◌/◌, ◌%◌, ◌≡◌, refl, Bool, true, false, ◌&&◌, ◌||◌, Option, none,
  some, List, [], ◌∷◌, ◌++◌, reverse, ltb, leb, eqb, if◌then◌else◌,
}
use postfixblocker.Text.{Text, codes, is_empty}

-- `negsuc n` is -(n + 1).
pub data ℤ : Type 0 where
  pos : ℕ → ℤ
  negsuc : ℕ → ℤ

abbrev pub neg : ℕ → ℤ
neg zero = pos 0
neg (suc n) = negsuc n

abbrev pub is_digit : ℕ → Bool
is_digit c = leb b'0' c && leb c b'9'

-- The digits that are left; `after` says that the last character read was a digit.
unfoldable pub digits : Bool → ℕ → Text → Option ℕ
digits after acc [] = if after then some acc else none
digits after acc (c ∷ s) =
    let next = digits true (acc * 10 + (c - b'0')) s in
    let gap = digits false acc s in
    if is_digit c then next else if eqb c b'_' && after then gap else none

-- The white space that `int` skips: that of C on ASCII, and the wide spaces.
unfoldable pub is_int_space : ℕ → Bool
is_int_space c =
    (leb 9 c && leb c 13)
    || eqb c 32
    || eqb c 133
    || eqb c 160
    || eqb c 5760
    || (leb 8192 c && leb c 8202)
    || eqb c 8232
    || eqb c 8233
    || eqb c 8239
    || eqb c 8287
    || eqb c 12288

abbrev pub skip_spaces : Text → Text
skip_spaces [] = []
skip_spaces (c ∷ s) = let rest = skip_spaces s in if is_int_space c then rest else c ∷ s

abbrev pub signed : (ℕ → ℤ) → Option ℕ → Option ℤ
signed f none = none
signed f (some n) = some (f n)

abbrev pub read_signed : Text → Option ℤ
read_signed [] = none
read_signed (c ∷ s) =
    if eqb c b'-'
    then signed neg (digits false 0 s)
    else if eqb c b'+'
    then signed pos (digits false 0 s)
    else signed pos (digits false 0 (c ∷ s))

-- `int(s)`; `none` is the `ValueError`.
unfoldable pub parse_int : Text → Option ℤ
unfolding digits is_int_space
parse_int s = read_signed (reverse (skip_spaces (reverse (skip_spaces s))))

-- Decimal digits, most significant first, on fuel; `n` itself is enough.
unfoldable pub show_digits : ℕ → ℕ → Text
show_digits zero n = (b'0' + n % 10) ∷ []
show_digits (suc f) n =
    let rest = show_digits f (n / 10) in
    if ltb n 10 then (b'0' + n) ∷ [] else rest ++ (b'0' + n % 10) ∷ []

unfoldable pub show_nat : ℕ → Text
unfolding show_digits
show_nat n = show_digits n n

-- `str(z)`.
unfoldable pub show_int : ℤ → Text
unfolding show_nat
show_int (pos n) = show_nat n
show_int (negsuc n) = b'-' ∷ show_nat (suc n)

parse_int_tests :
    (parse_int (codes " -1_024 ") ≡ some (negsuc 1023))
    × (parse_int (codes "1__0") ≡ none)
    × (parse_int (codes "") ≡ none)
    × (parse_int (codes "+7") ≡ some (pos 7))
    × (parse_int (codes "_7") ≡ none)
    × (parse_int (codes "12a") ≡ none)
unfolding parse_int
parse_int_tests = (refl, refl, refl, refl, refl, refl)

show_int_test : show_int (negsuc 119) ≡ codes "-120"
unfolding show_int
show_int_test = refl
