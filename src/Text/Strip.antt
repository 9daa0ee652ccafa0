-- ===== src/Text/Strip.antt =====
-- `strip` leaves a text without white space as it is.
use postfixblocker.Prelude.{◌≡◌, refl, false, [], ◌∷◌, All, arith}
use postfixblocker.Text.{Text, is_space, lstrip, rstrip, strip}

abbrev pub HasNoSpace : Text → Type 0
HasNoSpace = All (λ c. is_space c ≡ false)

lstrip-eq_self : (s : Text) → HasNoSpace s → lstrip s ≡ s
unfolding lstrip
lstrip-eq_self [] h = refl
lstrip-eq_self (c ∷ s) h = ground arith

rstrip-eq_self : (s : Text) → HasNoSpace s → rstrip s ≡ s
unfolding rstrip
rstrip-eq_self [] h = refl
rstrip-eq_self (c ∷ s) h = ground (arith, rstrip-eq_self s h.1)

strip_lem : (s : Text) → strip s ≡ rstrip (lstrip s)
unfolding strip
strip_lem s = refl

pub strip-eq_self : (s : Text) → HasNoSpace s → strip s ≡ s
strip-eq_self s h = rw (strip_lem s, lstrip-eq_self s h) (rstrip-eq_self s h)
