-- ===== src/Text/Decimal/RoundTrip.antt =====
-- `int(str(z))` is `z`.
use mathlib.Core.List.{reverse-reverse}
use postfixblocker.Prelude.{
  ℕ, zero, suc, ◌+◌, ◌-◌, ◌*◌, ◌/◌, ◌%◌, ◌≤◌, ◌<◌, ◌≡◌, refl, ap, Bool, true, false, some, inl, inr,
  ◌∙◌, [], ◌∷◌, ◌++◌, reverse, append_assoc, append-nil, arith, All, All-append, All-reverse,
  Bool-cases, ltb,
}
use postfixblocker.Text.{Text, is_space}
use postfixblocker.Text.Strip.{HasNoSpace}
use postfixblocker.Text.Decimal.{
  ℤ, pos, negsuc, signed, digits, is_digit, is_int_space, skip_spaces, read_signed, parse_int,
  show_digits, show_nat, show_int,
}

digits-digit :
    (b : Bool) (acc d : ℕ) (s : Text)
    → d < 10
    → digits b acc ((b'0' + d) ∷ s) ≡ digits true (acc * 10 + d) s
unfolding digits
digits-digit b acc d s h = let e : (b'0' + d) - b'0' ≡ d = omega arith in rw e (ground arith)

-- Reading what `show_digits` writes, with any text behind it.
digits-show_digits :
    (f n : ℕ) (rest : Text) → n ≤ f → digits false 0 (show_digits f n ++ rest) ≡ digits true n rest
unfolding show_digits
digits-show_digits zero n rest h =
    let e : n ≡ 0 = omega arith in rw e (digits-digit false 0 0 rest (omega arith))
digits-show_digits (suc f) n rest h = elim (Bool-cases (ltb n 10)) [
  | inl small ↦
      rw small
        (digits-digit false 0 n rest (ground arith) ∙ ap (λ m. digits true m rest) (omega arith))
  | inr large ↦
      rw (large, append_assoc)
        (digits-show_digits f (n / 10) ((b'0' + n % 10) ∷ rest) (ground arith)
          ∙ digits-digit true (n / 10) (n % 10) rest (omega arith)
          ∙ ap (λ m. digits true m rest) (omega arith))
]

abbrev AllDigits : Text → Type 0
AllDigits = All (λ c. is_digit c ≡ true)

show_digits-AllDigits : (f n : ℕ) → AllDigits (show_digits f n)
unfolding show_digits
show_digits-AllDigits zero n = (ground arith, tt)
show_digits-AllDigits (suc f) n = elim (Bool-cases (ltb n 10)) [
  | inl small ↦ rw small (ground arith, tt)
  | inr large ↦ rw large (
      All-append _ (show_digits f (n / 10)) _ (show_digits-AllDigits f (n / 10)) (ground arith, tt))
]

abbrev AllPlain : Text → Type 0
AllPlain = All (λ c. is_int_space c ≡ false)

skip_spaces-AllPlain : (s : Text) → AllPlain s → skip_spaces s ≡ s
skip_spaces-AllPlain [] h = refl
skip_spaces-AllPlain (c ∷ s) h = ground arith

AllDigits-AllPlain : (s : Text) → AllDigits s → AllPlain s
unfolding is_int_space
AllDigits-AllPlain [] h = tt
AllDigits-AllPlain (c ∷ s) h = (ground arith, AllDigits-AllPlain s h.1)

parse_int_lem :
    (s : Text) → parse_int s ≡ read_signed (reverse (skip_spaces (reverse (skip_spaces s))))
unfolding parse_int
parse_int_lem s = refl

parse_int-AllPlain : (s : Text) → AllPlain s → parse_int s ≡ read_signed s
parse_int-AllPlain s h = rw (
  parse_int_lem,
  skip_spaces-AllPlain s h,
  skip_spaces-AllPlain (reverse s) (All-reverse _ s h),
  reverse-reverse,
)

read_signed-AllDigits : (s : Text) → AllDigits s → read_signed s ≡ signed pos (digits false 0 s)
read_signed-AllDigits [] h = unfold digits in refl
read_signed-AllDigits (c ∷ s) h = ground arith

digits-show_nat : (n : ℕ) → digits false 0 (show_nat n) ≡ some n
unfolding digits
digits-show_nat n =
    rw (← append-nil (show_nat n)) (unfold show_nat in digits-show_digits n n [] (omega arith))

show_nat-AllDigits : (n : ℕ) → AllDigits (show_nat n)
unfolding show_nat
show_nat-AllDigits n = show_digits-AllDigits n n

show_int-negsuc : (n : ℕ) → show_int (negsuc n) ≡ b'-' ∷ show_nat (suc n)
unfolding show_int
show_int-negsuc n = refl

pub show_int-pos : (n : ℕ) → show_int (pos n) ≡ show_nat n
unfolding show_int
show_int-pos n = refl

show_int-AllPlain : (z : ℤ) → AllPlain (show_int z)
show_int-AllPlain (pos n) = rw show_int-pos (AllDigits-AllPlain _ (show_nat-AllDigits n))
show_int-AllPlain (negsuc n) =
    rw show_int-negsuc
      (unfold is_int_space in refl, AllDigits-AllPlain _ (show_nat-AllDigits (suc n)))

-- Every integer is read back from its decimal text.
pub parse_int-show_int : (z : ℤ) → parse_int (show_int z) ≡ some z
parse_int-show_int (pos n) =
    parse_int-AllPlain _ (show_int-AllPlain (pos n))
    ∙ rw (show_int-pos, read_signed-AllDigits (show_nat n) (show_nat-AllDigits n), digits-show_nat)
parse_int-show_int (negsuc n) =
    parse_int-AllPlain _ (show_int-AllPlain (negsuc n)) ∙ rw (show_int-negsuc, digits-show_nat)

AllDigits-HasNoSpace : (s : Text) → AllDigits s → HasNoSpace s
unfolding is_space
AllDigits-HasNoSpace [] h = tt
AllDigits-HasNoSpace (c ∷ s) h = (ground arith, AllDigits-HasNoSpace s h.1)

-- The text has no white space.
pub show_int-HasNoSpace : (z : ℤ) → HasNoSpace (show_int z)
show_int-HasNoSpace (pos n) = rw show_int-pos (AllDigits-HasNoSpace _ (show_nat-AllDigits n))
show_int-HasNoSpace (negsuc n) =
    rw show_int-negsuc
      (unfold is_space in refl, AllDigits-HasNoSpace _ (show_nat-AllDigits (suc n)))
