-- ===== src/Prelude/Lists.antt =====
-- Lists measured by native numbers, Boolean filters, and a predicate that holds of every element.
use Prim.Native.Nat.{ℕ, zero, suc, ◌+◌, ◌-◌, min}
use mathlib.Core.Path.{◌≡◌, refl, ap}
use mathlib.Core.Bool.{Bool, false, ◌||◌}
use mathlib.Core.List.{List, [], ◌∷◌, ◌++◌, reverse_aux, reverse}
use native.Mathlib.Omega.{arith}
use postfixblocker.Prelude.Tests.{if◌then◌else◌}

module _ {ℓ} {A : Type ℓ} where
  abbrev pub length : List A → ℕ
  length [] = 0
  length (x ∷ xs) = suc (length xs)

  abbrev pub drop : ℕ → List A → List A
  drop zero xs = xs
  drop (suc n) [] = []
  drop (suc n) (x ∷ xs) = drop n xs

  abbrev pub take : ℕ → List A → List A
  take zero xs = []
  take (suc n) [] = []
  take (suc n) (x ∷ xs) = x ∷ take n xs

  -- A comprehension's `if`: the elements that pass a Boolean test, in order.
  abbrev pub keep : (A → Bool) → List A → List A
  keep p [] = []
  keep p (x ∷ xs) = let rest = keep p xs in if p x then x ∷ rest else rest

  abbrev pub any : (A → Bool) → List A → Bool
  any p [] = false
  any p (x ∷ xs) = p x || any p xs

  pub length-append : (xs ys : List A) → length (xs ++ ys) ≡ length xs + length ys
  length-append [] ys = omega arith
  length-append (x ∷ xs) ys = omega (arith, length-append xs ys)

  pub take-append-drop : (n : ℕ) (xs : List A) → take n xs ++ drop n xs ≡ xs
  take-append-drop zero xs = refl
  take-append-drop (suc n) [] = refl
  take-append-drop (suc n) (x ∷ xs) = ap (◌∷◌ x) (take-append-drop n xs)

  pub length-drop : (n : ℕ) (xs : List A) → length (drop n xs) ≡ length xs - n
  length-drop zero xs = omega arith
  length-drop (suc n) [] = omega arith
  length-drop (suc n) (x ∷ xs) = omega (arith, length-drop n xs)

  pub length-take : (n : ℕ) (xs : List A) → length (take n xs) ≡ min n (length xs)
  length-take zero xs = omega arith
  length-take (suc n) [] = omega arith
  length-take (suc n) (x ∷ xs) = omega (arith, length-take n xs)

  pub keep-append : (p : A → Bool) (xs ys : List A) → keep p (xs ++ ys) ≡ keep p xs ++ keep p ys
  keep-append p [] ys = refl
  keep-append p (x ∷ xs) ys = ground (arith, keep-append p xs ys)

module _ {ℓ κ} {A : Type ℓ} (P : A → Type κ) where
  abbrev pub All : List A → Type κ
  All [] = Unit
  All (x ∷ xs) = P x × All xs

  pub All-append : (xs ys : List A) → All xs → All ys → All (xs ++ ys)
  All-append [] ys hx hy = hy
  All-append (x ∷ xs) ys hx hy = (hx.0, All-append xs ys hx.1 hy)

  pub All-reverse_aux : (xs ys : List A) → All xs → All ys → All (reverse_aux xs ys)
  All-reverse_aux [] ys hx hy = hy
  All-reverse_aux (x ∷ xs) ys hx hy = All-reverse_aux xs (x ∷ ys) hx.1 (hx.0, hy)

  pub All-reverse : (xs : List A) → All xs → All (reverse xs)
  All-reverse xs hx = All-reverse_aux xs [] hx tt
